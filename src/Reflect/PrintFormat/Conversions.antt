-- ===== src/Reflect/PrintFormat/Conversions.antt =====
-- The formats that print_format.h hands to printf, against what C documents of printf and of the values
-- that a call with variable arguments passes.
use tyndall.Base.{
  ℕ, zero, suc, Bool, true, false, ◌==◌, if◌then◌else◌, Option, none, some, bind, List, [], ◌∷◌,
  Bytes, char_at, ◌≡◌, ◌≢◌, ◌↔◌, refl, ap,
}
use tyndall.Meta.Strval.{append}
use tyndall.Reflect.PrintFormat.{
  Scalar, bool, float, double, int, unsigned_int, short, unsigned_short, char, unsigned_char, long,
  unsigned_long, long_long, unsigned_long_long, print_format_typeid, print_format_printf, Printed,
  print_format_as, print_format,
}
use tyndall.Reflect.PrintFormat.Laws.{print_format-typeid}

-- The argument that a conversion takes, by its letter and the number of `l` in front of it.
abbrev pub conversion : (ls c : ℕ) → Option Scalar
conversion zero c =
    if c == b'd'
    then some int
    else if c == b'u'
    then some unsigned_int
    else if c == b'c'
    then some int
    else if c == b'f'
    then some double
    else none
conversion (suc zero) c =
    if c == b'd' then some long else if c == b'u' then some unsigned_long else none
conversion (suc (suc zero)) c =
    if c == b'd' then some long_long else if c == b'u' then some unsigned_long_long else none
conversion (suc (suc (suc ls))) c = none

-- The arguments that printf takes for a format of such conversions and other text; inside a conversion
-- the first argument is the number of `l` that have been read.
abbrev pub printf_takes : Option ℕ → Bytes → Option (List Scalar)
printf_takes none [] = some []
printf_takes (some ls) [] = none
printf_takes none (c ∷ s) =
    let inside = printf_takes (some 0) s in
    let outside = printf_takes none s in if c == b'%' then inside else outside
printf_takes (some ls) (c ∷ s) =
    let longer = printf_takes (some (suc ls)) s in
    let others = printf_takes none s in
    if c == b'l' then longer else bind (conversion ls c) (λ t. bind others (λ ts. some (t ∷ ts)))

-- What a value becomes in a call with variable arguments.
abbrev pub promoted : Scalar → Scalar
promoted bool = int
promoted float = double
promoted double = double
promoted int = int
promoted unsigned_int = unsigned_int
promoted short = int
promoted unsigned_short = int
promoted char = int
promoted unsigned_char = int
promoted long = long
promoted unsigned_long = unsigned_long
promoted long_long = long_long
promoted unsigned_long_long = unsigned_long_long

abbrev pub is_unsigned : Scalar → Bool
is_unsigned bool = true
is_unsigned float = false
is_unsigned double = false
is_unsigned int = false
is_unsigned unsigned_int = true
is_unsigned short = false
is_unsigned unsigned_short = true
is_unsigned char = false
is_unsigned unsigned_char = true
is_unsigned long = false
is_unsigned unsigned_long = true
is_unsigned long_long = false
is_unsigned unsigned_long_long = true

-- When `va_arg` is defined for an argument of a type, asked for as another: they are equal, or they are
-- int and unsigned int, and the value is one of both.
pub data Takes (t : Scalar) : (wanted : Scalar) → Type 0 where
  same_type : (wanted : Scalar) → promoted t ≡ wanted → Takes t wanted
  value_of_both : promoted t ≡ int → is_unsigned t ≡ true → Takes t unsigned_int

unsigned_long-Takes : (wanted : Scalar) → Takes unsigned_long wanted → wanted ≢ unsigned_int
unsigned_long-Takes wanted (same_type w e) int_wanted = absurd (cc)
unsigned_long-Takes wanted (value_of_both e u) int_wanted = absurd (cc e)

-- printf takes one argument for the format that print_format hands it for the character of a basic
-- type, and the value that is passed has the type that this argument must have, except for unsigned
-- long, which is printed as an unsigned int.
pub print_format-printf_takes :
    (t : Scalar) (data' : ℕ)
    → (wanted : Scalar) × (printed : Printed) × ((print_format
          (char_at (print_format_typeid t))
          data').0
        ≡ some printed)
      × (printed.type ≡ t)
      × (printf_takes none printed.format ≡ some (wanted ∷ []))
      × (Takes t wanted ↔ (t ≢ unsigned_long))
unfolding print_format_as append print_format_printf print_format_typeid
print_format-printf_takes bool data' = (
  int,
  _,
  ap (λ p. p.0) (print_format-typeid bool data'),
  refl,
  refl,
  (λ _ e. cc, λ _. same_type int refl),
)
print_format-printf_takes float data' = (
  double,
  _,
  ap (λ p. p.0) (print_format-typeid float data'),
  refl,
  refl,
  (λ _ e. cc, λ _. same_type double refl),
)
print_format-printf_takes double data' = (
  double,
  _,
  ap (λ p. p.0) (print_format-typeid double data'),
  refl,
  refl,
  (λ _ e. cc, λ _. same_type double refl),
)
print_format-printf_takes int data' = (
  int,
  _,
  ap (λ p. p.0) (print_format-typeid int data'),
  refl,
  refl,
  (λ _ e. cc, λ _. same_type int refl),
)
print_format-printf_takes unsigned_int data' = (
  unsigned_int,
  _,
  ap (λ p. p.0) (print_format-typeid unsigned_int data'),
  refl,
  refl,
  (λ _ e. cc, λ _. same_type unsigned_int refl),
)
print_format-printf_takes short data' = (
  int,
  _,
  ap (λ p. p.0) (print_format-typeid short data'),
  refl,
  refl,
  (λ _ e. cc, λ _. same_type int refl),
)
print_format-printf_takes unsigned_short data' = (
  unsigned_int,
  _,
  ap (λ p. p.0) (print_format-typeid unsigned_short data'),
  refl,
  refl,
  (λ _ e. cc, λ _. value_of_both refl refl),
)
print_format-printf_takes char data' = (
  int,
  _,
  ap (λ p. p.0) (print_format-typeid char data'),
  refl,
  refl,
  (λ _ e. cc, λ _. same_type int refl),
)
print_format-printf_takes unsigned_char data' = (
  unsigned_int,
  _,
  ap (λ p. p.0) (print_format-typeid unsigned_char data'),
  refl,
  refl,
  (λ _ e. cc, λ _. value_of_both refl refl),
)
print_format-printf_takes long data' = (
  long,
  _,
  ap (λ p. p.0) (print_format-typeid long data'),
  refl,
  refl,
  (λ _ e. cc, λ _. same_type long refl),
)
print_format-printf_takes unsigned_long data' = (
  unsigned_int,
  _,
  ap (λ p. p.0) (print_format-typeid unsigned_long data'),
  refl,
  refl,
  (λ takes _. unsigned_long-Takes unsigned_int takes refl, λ ne. absurd (ne refl)),
)
print_format-printf_takes long_long data' = (
  long_long,
  _,
  ap (λ p. p.0) (print_format-typeid long_long data'),
  refl,
  refl,
  (λ _ e. cc, λ _. same_type long_long refl),
)
print_format-printf_takes unsigned_long_long data' = (
  unsigned_long_long,
  _,
  ap (λ p. p.0) (print_format-typeid unsigned_long_long data'),
  refl,
  refl,
  (λ _ e. cc, λ _. same_type unsigned_long_long refl),
)
