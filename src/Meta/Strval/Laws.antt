-- ===== src/Meta/Strval/Laws.antt =====
-- What the string operations of strval.h promise, and how they work together.
use tyndall.Base.{
  ℕ, suc, ◌+◌, true, if◌then◌else◌, ◌==◌, eq→==, some, Bytes, [], ◌∷◌, ◌++◌, append_assoc, length,
  set, get_or, get_or_last, set_last, length-append, ◌≡◌, ◌≢◌, ◌↔◌, refl, ap, arith, Bool-cases,
  inl, inr,
}
use tyndall.Meta.Strval.{
  append, occurrences, replace, remove_leading, get, set_loop, set_data, is_same,
}

pub append-++ : (s t : Bytes) → append s t ≡ s ++ t
unfolding append
append-++ [] t = refl
append-++ (c ∷ s) t = refl

replace-cons :
    (p r c : ℕ) (s : Bytes) → replace p r (c ∷ s) ≡ (if c == p then r else c) ∷ replace p r s
unfolding replace append
replace-cons p r c s = refl

pub replace-append : (p r : ℕ) (s t : Bytes) → replace p r (s ++ t) ≡ replace p r s ++ replace p r t
replace-append p r [] t = unfold replace in refl
replace-append p r (c ∷ s) t = simp (replace-cons, replace-append p r s t)

pub occurrences-append :
    (s t : Bytes) (c : ℕ) → occurrences (s ++ t) c ≡ occurrences s c + occurrences t c
unfolding occurrences
occurrences-append [] t c = omega arith
occurrences-append (d ∷ s) t c = ground (arith, occurrences-append s t c)

pub length-replace : (p r : ℕ) (s : Bytes) → length (replace p r s) ≡ length s
length-replace p r [] = unfold replace in refl
length-replace p r (c ∷ s) = rw replace-cons (ap suc (length-replace p r s))

-- Replacing moves every occurrence of the pattern to the replacement: none of the pattern is left,
-- the replacement gains as many, and any other character keeps its number.
pub occurrences-replace :
    (p r c : ℕ) (s : Bytes)
    → p ≢ r
    → c ≢ p
    → c ≢ r
    → (occurrences (replace p r s) p ≡ 0)
      × (occurrences (replace p r s) r ≡ occurrences s r + occurrences s p)
      × (occurrences (replace p r s) c ≡ occurrences s c)
unfolding occurrences
occurrences-replace p r c [] ne np nr = unfold replace in (refl, refl, refl)
occurrences-replace p r c (d ∷ s) ne np nr =
    let (none_left, gained, kept) = occurrences-replace p r c s ne np nr in
    rw replace-cons
      (ground (arith, none_left, gained), ground (arith, none_left, gained), ground (arith, kept))

-- Stripping a text takes a run of the pattern and nothing else: the run and the result spell the
-- text, and the result does not begin with the pattern.
pub remove_leading_run :
    (p : ℕ) (s : Bytes)
    → (run : Bytes) × (occurrences run p ≡ length run)
      × (s ≡ run ++ remove_leading p s)
      × (get 0 (remove_leading p s) ≢ some p)
unfolding remove_leading occurrences get
remove_leading_run p [] = ([], refl, refl, λ e. cc)
remove_leading_run p (c ∷ s) = elim (Bool-cases (c == p)) [
  | inl e ↦
      let (run, all_p, spelt, stops) = remove_leading_run p s in
      (c ∷ run, ground (arith, all_p), rw e (ap (λ (t : Bytes). c ∷ t) spelt), rw e stops)
  | inr e ↦ ([], refl, rw e refl, rw e (λ q. ground arith))
]

-- Stripping twice is stripping once, and a pattern in front makes no difference.
pub remove_leading_idem :
    (p : ℕ) (s : Bytes)
    → (remove_leading p (remove_leading p s) ≡ remove_leading p s)
      × (remove_leading p (p ∷ s) ≡ remove_leading p s)
unfolding remove_leading
remove_leading_idem p s = (idem s, rw (eq→== p p refl))
  where
    idem : (t : Bytes) → remove_leading p (remove_leading p t) ≡ remove_leading p t
    idem [] = refl
    idem (c ∷ t) = elim (Bool-cases (c == p)) [
      | inl e ↦ rw e (idem t)
      | inr e ↦ rw (e, remove_leading) (rw e)
    ]

-- `==` on strvals decides equality of the character lists.
pub is_same_iff : (s t : Bytes) → (is_same s t ≡ true) ↔ (s ≡ t)
unfolding is_same
is_same_iff [] [] = (λ _. refl, λ _. refl)
is_same_iff [] (d ∷ t) = (λ e. cc, λ e. cc)
is_same_iff (c ∷ s) [] = (λ e. cc, λ e. cc)
is_same_iff (c ∷ s) (d ∷ t) = ground (arith, is_same_iff s t)

set_loop_step :
    (rounds i : ℕ) (tmp cells : Bytes)
    → set_loop (suc rounds) i tmp cells ≡ set_loop rounds (i + 1) tmp (set cells i (get_or tmp i 0))
unfolding set_loop
set_loop_step rounds i tmp cells = refl

-- The loop from `i` on: the cells below `i` stay, those from `i` on are the text's.
set_loop_lem :
    (done rest olds after : Bytes)
    → length rest ≡ length olds
    → set_loop (length rest) (length done) (done ++ rest) (done ++ (olds ++ after))
      ≡ done ++ (rest ++ after)
set_loop_lem done [] [] after e = unfold set_loop in refl
set_loop_lem done [] (o ∷ olds) after e = absurd (omega arith)
set_loop_lem done (c ∷ rest) [] after e = absurd (omega arith)
set_loop_lem done (c ∷ rest) (o ∷ olds) after e =
    let one_more : length (done ++ c ∷ []) ≡ length done + 1 =
      omega (arith, length-append done (c ∷ [])) in
    rw (set_loop_step, get_or_last done rest c 0, set_last done (olds ++ after) o c)
      (simp (append_assoc, one_more) at
        (set_loop_lem (done ++ c ∷ []) rest olds after (omega arith)))

-- `set` stores the text, without a NUL, over as many cells, and leaves what stands behind them.
pub set_data_lem :
    (s olds after : Bytes) → length s ≡ length olds → set_data s (olds ++ after) ≡ s ++ after
unfolding set_data
set_data_lem [] [] after e = refl
set_data_lem [] (o ∷ olds) after e = absurd (omega arith)
set_data_lem (c ∷ s) olds after e = set_loop_lem [] (c ∷ s) olds after e
