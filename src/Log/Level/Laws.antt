-- ===== src/Log/Level/Laws.antt =====
-- Which level a text stands for.
use tyndall.Base.{
  ℕ, zero, suc, ◌+◌, ◌<◌, ◌≤◌, false, ◌==◌, none, some, Bytes, [], ◌∷◌, ◌++◌, codes, length,
  is_digit, pos, ◌≡◌, refl, arith, subst,
}
use tyndall.Log.Level.{
  n_levels, invalid, log_level_to_string, names_level, from_string_loop, log_level_from_string,
}

unnamed : (n : ℕ) → n_levels ≤ n → log_level_to_string (pos n) ≡ none
unfolding log_level_to_string
unnamed n h = ground arith

not_a_name :
    (i : ℕ) (name : Bytes)
    → log_level_to_string (pos (suc (suc (suc (suc (suc (suc (suc i)))))))) ≡ some name
    → ⊥
not_a_name i name e = cc (unnamed (suc (suc (suc (suc (suc (suc (suc i))))))) (omega arith))

at_name : (P : Bytes → Type 0) {name name' : Bytes} → some name ≡ some name' → P name → P name'
at_name P e h = subst P (cc) h

-- What holds of each name at its level holds of every name.
pub each_name :
    (P : ℕ → Bytes → Type 0)
    → P 0 (codes "fatal")
    → P 1 (codes "error")
    → P 2 (codes "alarm")
    → P 3 (codes "warning")
    → P 4 (codes "info")
    → P 5 (codes "debug")
    → P 6 (codes "trace")
    → (i : ℕ) {name : Bytes} → log_level_to_string (pos i) ≡ some name
    → P i name
unfolding log_level_to_string
each_name P p0 p1 p2 p3 p4 p5 p6 zero e = at_name (P 0) e p0
each_name P p0 p1 p2 p3 p4 p5 p6 (suc zero) e = at_name (P 1) e p1
each_name P p0 p1 p2 p3 p4 p5 p6 (suc (suc zero)) e = at_name (P 2) e p2
each_name P p0 p1 p2 p3 p4 p5 p6 (suc (suc (suc zero))) e = at_name (P 3) e p3
each_name P p0 p1 p2 p3 p4 p5 p6 (suc (suc (suc (suc zero)))) e = at_name (P 4) e p4
each_name P p0 p1 p2 p3 p4 p5 p6 (suc (suc (suc (suc (suc zero))))) e = at_name (P 5) e p5
each_name P p0 p1 p2 p3 p4 p5 p6 (suc (suc (suc (suc (suc (suc zero)))))) e = at_name (P 6) e p6
each_name P p0 p1 p2 p3 p4 p5 p6 (suc (suc (suc (suc (suc (suc (suc i))))))) {name} e =
    absurd (not_a_name i name e)

-- A level's name in front of a text stands for the level, whatever follows.
pub from_string-to_string :
    (i : ℕ) (name rest : Bytes)
    → log_level_to_string (pos i) ≡ some name
    → log_level_from_string (name ++ rest) ≡ some (pos i)
unfolding log_level_from_string from_string_loop names_level log_level_to_string
from_string-to_string i name rest e =
    each_name (λ n text. log_level_from_string (text ++ rest) ≡ some (pos n)) refl refl refl refl
      refl refl refl i e

-- Of the texts of one digit, those below the number of levels stand for the level of that number.
pub from_string_digit :
    (d : ℕ) → d < n_levels → log_level_from_string ((b'0' + d) ∷ []) ≡ some (pos d)
unfolding log_level_from_string from_string_loop names_level log_level_to_string
from_string_digit zero h = refl
from_string_digit (suc zero) h = refl
from_string_digit (suc (suc zero)) h = refl
from_string_digit (suc (suc (suc zero))) h = refl
from_string_digit (suc (suc (suc (suc zero)))) h = refl
from_string_digit (suc (suc (suc (suc (suc zero))))) h = refl
from_string_digit (suc (suc (suc (suc (suc (suc zero)))))) h = refl
from_string_digit (suc (suc (suc (suc (suc (suc (suc i))))))) h = absurd (omega arith)

-- A text that begins with the digit 0 and is longer, with no digit behind, is not understood: the
-- level 0 is taken only from a text that is that digit alone.
pub from_string_zero_more :
    (c : ℕ) (rest : Bytes)
    → is_digit c ≡ false
    → log_level_from_string (b'0' ∷ c ∷ rest) ≡ some invalid
unfolding log_level_from_string from_string_loop names_level log_level_to_string
from_string_zero_more c rest h =
    let longer : (suc (suc (length rest)) == 1) ≡ false = ground arith in rw (h, longer)
