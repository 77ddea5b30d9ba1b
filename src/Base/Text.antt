-- ===== src/Base/Text.antt =====
-- The functions of <cstring> and <cstdlib> that the program calls, on C strings: a pointer into a
-- C string is the list of the bytes from there to the NUL, which is not in the list.
use Prim.Native.Nat.{ℕ, suc, ◌+◌, ◌-◌, ◌*◌, ◌%◌, ◌^◌, min}
use mathlib.Core.Path.{◌≡◌, refl, ap}
use mathlib.Core.Logic.{◌≢◌}
use mathlib.Core.Bool.{Bool, true, false, ◌&&◌, ◌||◌}
use mathlib.Core.List.{[], ◌∷◌, ◌++◌}
use mathlib.Core.Option.{Option, none, some}
use native.Mathlib.Omega.{arith}
use tyndall.Base.Tests.{leb, ◌==◌, if◌then◌else◌, eq→==, ne→==}
use tyndall.Base.Lists.{Bytes, drop, take, length, All}
use tyndall.Base.Int.{ℤ, pos, signed32}

-- `*s`
abbrev pub char_at : Bytes → ℕ
char_at [] = 0
char_at (c ∷ s) = c

-- `strncmp(s, prefix, strlen(prefix)) == 0`
abbrev pub starts_with : Bytes → Bytes → Bool
starts_with [] s = true
starts_with (p ∷ prefix) [] = false
starts_with (p ∷ prefix) (c ∷ s) = p == c && starts_with prefix s

-- `strchr(s, c) - s` for a `c` that is not NUL; `none` for a null pointer.
abbrev pub index_of : ℕ → Bytes → Option ℕ
index_of c [] = none
index_of c (d ∷ s) =
    if d == c then some 0 else elim (index_of c s) [ none ↦ none | some i ↦ some (suc i) ]

abbrev pub is_digit : ℕ → Bool
is_digit c = leb b'0' c && leb c b'9'

abbrev pub is_space : ℕ → Bool
is_space c = c == 32 || (leb 9 c && leb c 13)

-- The digits that a text begins with, read behind `n`.
abbrev pub digits_value : ℕ → Bytes → ℕ
digits_value n [] = n
digits_value n (c ∷ s) =
    let more = digits_value (n * 10 + (c - b'0')) s in if is_digit c then more else n

-- `strtol(s, NULL, 10)` cast to `int`: the value stops at the ends of a 64 bit `long`, and the cast
-- keeps 32 bits.
abbrev pub strtol_signed : Bytes → ℤ
strtol_signed [] = pos 0
strtol_signed (c ∷ s) =
    if c == b'-'
    then signed32 ((2 ^ 64 - min (digits_value 0 s) (2 ^ 63)) % 2 ^ 32)
    else if c == b'+'
    then signed32 (min (digits_value 0 s) (2 ^ 63 - 1) % 2 ^ 32)
    else signed32 (min (digits_value 0 (c ∷ s)) (2 ^ 63 - 1) % 2 ^ 32)

abbrev pub strtol_int : Bytes → ℤ
strtol_int [] = pos 0
strtol_int (c ∷ s) = let rest = strtol_int s in if is_space c then rest else strtol_signed (c ∷ s)

pub starts_with-append : (p s : Bytes) → starts_with p (p ++ s) ≡ true
starts_with-append [] s = refl
starts_with-append (c ∷ p) s = ground (arith, starts_with-append p s)

-- What begins with a prefix is the prefix and what `drop` leaves.
pub starts_with_split : (p s : Bytes) → starts_with p s ≡ true → (rest : Bytes) × (s ≡ p ++ rest)
starts_with_split [] s h = (s, refl)
starts_with_split (c ∷ p) [] h = cc
starts_with_split (c ∷ p) (d ∷ s) h =
    let (rest, e) = starts_with_split p s (ground arith) in (rest, ground (arith, e))

-- No byte of the text is `c`.
abbrev pub Lacks : ℕ → Bytes → Type 0
Lacks c = All (λ d. d ≢ c)

abbrev pub shift : ℕ → Option ℕ → Option ℕ
shift n none = none
shift n (some i) = some (n + i)

-- `strchr` passes over a text without the byte.
pub index_of-append :
    (c : ℕ) (p t : Bytes) → Lacks c p → index_of c (p ++ t) ≡ shift (length p) (index_of c t)
index_of-append c [] t h = shift_zero (index_of c t)
  where
    shift_zero : (o : Option ℕ) → o ≡ shift 0 o
    shift_zero none = refl
    shift_zero (some i) = ap some (omega arith)
index_of-append c (d ∷ p) t (hd, hp) =
    rw (ne→== d c hd, index_of-append c p t hp) (shift_suc (index_of c t))
  where
    shift_suc :
        (o : Option ℕ)
        → ◌≡◌ {A = Option ℕ}
            (elim (shift (length p) o) [ none ↦ none | some i ↦ some (suc i) ])
            (shift (suc (length p)) o)
    shift_suc none = refl
    shift_suc (some i) = ap some (omega arith)

pub index_of-here : (c : ℕ) (t : Bytes) → index_of c (c ∷ t) ≡ some 0
index_of-here c t = rw (eq→== c c refl)

pub take-append : (p t : Bytes) → take (length p) (p ++ t) ≡ p
take-append [] t = refl
take-append (c ∷ p) t = rw (take-append p t)

pub drop-append : (p t : Bytes) → drop (length p) (p ++ t) ≡ t
drop-append [] t = refl
drop-append (c ∷ p) t = drop-append p t

pub index_of-Lacks : (c : ℕ) (s : Bytes) → Lacks c s → index_of c s ≡ none
index_of-Lacks c [] h = refl
index_of-Lacks c (d ∷ s) (hd, hs) = rw (ne→== d c hd, index_of-Lacks c s hs)

pub index_of_split : (c : ℕ) (p t : Bytes) → Lacks c p → index_of c (p ++ (c ∷ t)) ≡ some (length p)
index_of_split c [] t h = index_of-here c t
index_of_split c (d ∷ p) t (hd, hp) = rw (ne→== d c hd, index_of_split c p t hp)

pub drop_behind : (p : Bytes) (c : ℕ) (t : Bytes) → drop (suc (length p)) (p ++ (c ∷ t)) ≡ t
drop_behind [] c t = refl
drop_behind (d ∷ p) c t = drop_behind p c t
