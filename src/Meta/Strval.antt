-- ===== src/Meta/Strval.antt =====
-- tyndall/meta/strval.h: compile time strings. A type `strval<Chars...>` is the list of its
-- characters, and a static member function is a function of that list.
pub mod Laws
pub mod Decimal
pub mod Printer
use mathlib.Core.List.{map}
use mathlib.Core.Logic.{dite}
use mathlib.Core.WellFounded.{Acc}
use tyndall.Base.{
  ℕ, zero, suc, ◌+◌, ◌*◌, ◌/◌, ◌%◌, ◌<◌, Bool, true, false, ◌&&◌, not, if◌then◌else◌, ◌==◌, Option,
  none, some, Bytes, List, [], ◌∷◌, ◌++◌, length, set, get_or, codes, ◌≡◌, refl, arith, dec_lt,
  lt_wf,
}

-- `operator+`
unfoldable pub append : Bytes → Bytes → Bytes
append [] args = args
append (lhs ∷ rhs) args = lhs ∷ (rhs ++ args)

unfoldable pub c_str : Bytes → Bytes
c_str [] = 0 ∷ []
c_str (lhs ∷ rhs) = lhs ∷ (rhs ++ 0 ∷ [])

unfoldable pub occurrences : Bytes → ℕ → ℕ
occurrences [] c = 0
occurrences (lhs ∷ rhs) c = (if lhs == c then 1 else 0) + occurrences rhs c

unfoldable pub replace : ℕ → ℕ → Bytes → Bytes
unfolding append
replace pattern replacement [] = []
replace pattern replacement (lhs ∷ rhs) =
    append ((if lhs == pattern then replacement else lhs) ∷ []) (replace pattern replacement rhs)

unfoldable pub remove_leading : ℕ → Bytes → Bytes
remove_leading pattern [] = []
remove_leading pattern (lhs ∷ rhs) =
    let shorter = remove_leading pattern rhs in if lhs == pattern then shorter else lhs ∷ rhs

-- `get<index>`: no instance past the end, a compile error.
unfoldable pub get : ℕ → Bytes → Option ℕ
get index [] = none
get zero (lhs ∷ rhs) = some lhs
get (suc index) (lhs ∷ rhs) = get index rhs

-- The loop of `set` at `i`, with `rounds` rounds left; `data` is the object's memory.
set_loop : ℕ → ℕ → Bytes → Bytes → Bytes
set_loop zero i tmp cells = cells
set_loop (suc rounds) i tmp cells = set_loop rounds (i + 1) tmp (set cells i (get_or tmp i 0))

unfoldable pub set_data : Bytes → Bytes → Bytes
unfolding set_loop
set_data [] cells = cells
set_data (lhs ∷ rhs) cells = set_loop (length (lhs ∷ rhs)) 0 (lhs ∷ rhs) cells

-- `operator==`: the two types are the same.
unfoldable pub is_same : Bytes → Bytes → Bool
is_same [] [] = true
is_same [] (r ∷ rhs) = false
is_same (l ∷ lhs) [] = false
is_same (l ∷ lhs) (r ∷ rhs) = l == r && is_same lhs rhs

unfoldable pub is_different : Bytes → Bytes → Bool
unfolding is_same
is_different lhs rhs = not (is_same lhs rhs)

pub tenth_lt : {n : ℕ} → 0 < n → n / 10 < n
tenth_lt h = omega arith

-- `to_strval<remainder, digits...>`: its base class, up to the instance for remainder 0.
to_strval_digits : (remainder : ℕ) → Acc ◌<◌ remainder → List ℕ → Bytes
to_strval_digits remainder (Acc.intro _ smaller) digits =
    dite (dec_lt 0 remainder)
      (λ h.
        to_strval_digits (remainder / 10) (smaller (remainder / 10) (tenth_lt h))
          ((remainder % 10) ∷ digits))
      (λ _. map (λ d. b'0' + d) digits)

unfoldable pub to_strval : ℕ → Bytes
unfolding to_strval_digits lt_wf dec_lt
to_strval n = to_strval_digits n (lt_wf.apply n) []
