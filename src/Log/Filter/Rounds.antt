-- ===== src/Log/Filter/Rounds.antt =====
-- More rounds than bytes change nothing for the loop of `log_level` over the entries.
use tyndall.Base.{
  ℕ, zero, suc, ◌≤◌, ◌==◌, Bool-cases, inl, inr, Option, none, some, Option-cases, bind_ext, Bytes,
  [], ◌∷◌, drop, length, index_of, ◌≡◌, refl, arith,
}
use tyndall.Log.Level.{LogLevel}
use tyndall.Log.Filter.{strchr, take_entry, entries_loop}

length-drop_le : (n : ℕ) (s : Bytes) → length (drop n s) ≤ length s
length-drop_le zero s = omega arith
length-drop_le (suc n) [] = omega arith
length-drop_le (suc n) (c ∷ s) = omega (arith, length-drop_le n s)

-- No pointer of the loop leads out of `n` bytes.
abbrev pub Within : ℕ → Option Bytes → Type 0
Within n none = Unit
Within n (some s) = length s ≤ n

pub strchr-Within : (c : ℕ) (s : Bytes) (n : ℕ) → length s ≤ n → Within n (strchr c s)
strchr-Within c s n h = elim (Option-cases (index_of c s)) [
  | inl e ↦ rw (e) tt
  | inr (i, e) ↦ rw (e) (omega (arith, length-drop_le i s))
]

pub entries_loop-Within :
    (n m : ℕ) (e : Option Bytes) (cat : Bytes) (lvl : LogLevel)
    → n ≤ m
    → Within n e
    → entries_loop (suc m) e cat lvl ≡ entries_loop (suc n) e cat lvl
unfolding entries_loop
entries_loop-Within n m none cat lvl le h = refl
entries_loop-Within n m (some []) cat lvl le h = refl
entries_loop-Within n m (some (c ∷ [])) cat lvl le h = refl
entries_loop-Within zero m (some (c ∷ d ∷ s)) cat lvl le h = absurd (omega arith)
entries_loop-Within (suc n) zero (some (c ∷ d ∷ s)) cat lvl le h = absurd (omega arith)
entries_loop-Within (suc n) (suc m) (some (c ∷ d ∷ s)) cat lvl le h =
    elim (Bool-cases (c == b',')) [
      | inl comma ↦ rw (comma) (
          bind_ext (take_entry (d ∷ s) cat lvl) (λ lvl'.
            entries_loop-Within n m (strchr b',' s) cat lvl' (omega arith)
              (strchr-Within b',' s n (omega arith))))
      | inr other ↦ rw (other) (
          bind_ext (take_entry (c ∷ d ∷ s) cat lvl) (λ lvl'.
            entries_loop-Within n m (strchr b',' (d ∷ s)) cat lvl' (omega arith)
              (strchr-Within b',' (d ∷ s) n (omega arith))))
    ]
