-- ===== src/Reflect/PrintFormat/Laws.antt =====
-- What print_format.h promises of alignment and of the characters for types.
use tyndall.Base.{
  Bool-cases, ==→eq, ℕ, ◌+◌, ◌%◌, ◌<◌, true, false, none, [], ◌∷◌, char_at, ◌≡◌, ◌≢◌, refl, arith,
  ◌⊎◌, inl, inr,
}
use tyndall.Meta.Strval.{get}
use tyndall.Reflect.PrintFormat.{
  Scalar, bool, float, double, int, unsigned_int, short, unsigned_short, char, unsigned_char, long,
  unsigned_long, long_long, unsigned_long_long, print_format_typeid, size_of,
  print_format_alignment, print_format_as, is_label, returned, print_format,
}

-- The sizes that there are.
pub sizes : (t : Scalar) → (size_of t ≡ 1) ⊎ ((size_of t ≡ 2) ⊎ ((size_of t ≡ 4) ⊎ (size_of t ≡ 8)))
unfolding size_of
sizes bool = inl refl
sizes float = inr (inr (inl refl))
sizes double = inr (inr (inr refl))
sizes int = inr (inr (inl refl))
sizes unsigned_int = inr (inr (inl refl))
sizes short = inr (inl refl)
sizes unsigned_short = inr (inl refl)
sizes char = inl refl
sizes unsigned_char = inl refl
sizes long = inr (inr (inr refl))
sizes unsigned_long = inr (inr (inr refl))
sizes long_long = inr (inr (inr refl))
sizes unsigned_long_long = inr (inr (inr refl))

-- The address printed from is the first one from the pointer on that the type's size divides.
pub print_format_alignment_lem :
    (t : Scalar) (ptr : ℕ)
    → ((ptr + print_format_alignment t ptr) % size_of t ≡ 0)
      × ((k : ℕ) → k < print_format_alignment t ptr → (ptr + k) % size_of t ≢ 0)
unfolding print_format_alignment
print_format_alignment_lem t ptr = elim (sizes t) [
  | inl e ↦ rw (e) (ground arith, λ k. ground arith)
  | inr (inl e) ↦ rw (e) (ground arith, λ k. ground arith)
  | inr (inr (inl e)) ↦ rw (e) (ground arith, λ k. ground arith)
  | inr (inr (inr e)) ↦ rw (e) (ground arith, λ k. ground arith)
]

-- The character that stands for a type makes print_format print as that type.
pub print_format-typeid :
    (t : Scalar) (data' : ℕ)
    → print_format (char_at (print_format_typeid t)) data' ≡ returned (print_format_as t data')
unfolding print_format is_label print_format_typeid get print_format_as
print_format-typeid bool data' = refl
print_format-typeid float data' = refl
print_format-typeid double data' = refl
print_format-typeid int data' = refl
print_format-typeid unsigned_int data' = refl
print_format-typeid short data' = refl
print_format-typeid unsigned_short data' = refl
print_format-typeid char data' = refl
print_format-typeid unsigned_char data' = refl
print_format-typeid long data' = refl
print_format-typeid unsigned_long data' = refl
print_format-typeid long_long data' = refl
print_format-typeid unsigned_long_long data' = refl

is_label-typeid : (t : Scalar) (c : ℕ) → is_label t c ≡ true → print_format_typeid t ≡ c ∷ []
unfolding is_label print_format_typeid get
is_label-typeid bool c h = rw (==→eq c b'b' h)
is_label-typeid float c h = rw (==→eq c b'f' h)
is_label-typeid double c h = rw (==→eq c b'd' h)
is_label-typeid int c h = rw (==→eq c b'i' h)
is_label-typeid unsigned_int c h = rw (==→eq c b'j' h)
is_label-typeid short c h = rw (==→eq c b's' h)
is_label-typeid unsigned_short c h = rw (==→eq c b't' h)
is_label-typeid char c h = rw (==→eq c b'c' h)
is_label-typeid unsigned_char c h = rw (==→eq c b'h' h)
is_label-typeid long c h = rw (==→eq c b'l' h)
is_label-typeid unsigned_long c h = rw (==→eq c b'm' h)
is_label-typeid long_long c h = rw (==→eq c b'x' h)
is_label-typeid unsigned_long_long c h = rw (==→eq c b'y' h)

-- For a character that stands for no type, print_format prints nothing and returns 0.
pub print_format-other :
    (c data' : ℕ)
    → ((t : Scalar) → print_format_typeid t ≢ c ∷ [])
    → print_format c data' ≡ (none, 0)
unfolding print_format
print_format-other c data' h = rw (
  no_label bool,
  no_label float,
  no_label double,
  no_label int,
  no_label unsigned_int,
  no_label short,
  no_label unsigned_short,
  no_label char,
  no_label unsigned_char,
  no_label long,
  no_label unsigned_long,
  no_label long_long,
  no_label unsigned_long_long,
)
  where
    no_label : (t : Scalar) → is_label t c ≡ false
    no_label t = elim (Bool-cases (is_label t c)) [
      | inl e ↦ absurd (h t (is_label-typeid t c e))
      | inr e ↦ e
    ]
