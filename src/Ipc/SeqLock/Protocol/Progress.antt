-- ===== src/Ipc/SeqLock/Protocol/Progress.antt =====
-- When a read of seq_lock.h returns, and what keeps it from returning.
use tyndall.Base.{
  subst, ◌+◌, ℕ, zero, suc, ◌<◌, ◌≤◌, true, false, ◌≡◌, ◌∙◌, ap, arith, refl, ◌==◌, Bool-cases, inl,
  inr, ==→eq,
}
use tyndall.Ipc.SeqLock.{seq_lock_read_retry, is_odd}
use tyndall.Ipc.SeqLock.Protocol.{
  update, Entry, Done, nothing_done, waiting, copying, checking, returned, System, Step, begin,
  copy, copied_all, accept, call_write, load_seq, mark, store, unmark, call_read, spin, retry,
  leave, move_reader,
}
use tyndall.Ipc.SeqLock.Protocol.Invariant.{Same}

-- The step is one of the reader `i`.
abbrev pub IsOwn : {n : ℕ} {s t : System} → ℕ → Step n s t → Type 0
IsOwn i (call_write entry w) = ⊥
IsOwn i (load_seq entry w) = ⊥
IsOwn i (mark entry seq1 w) = ⊥
IsOwn i (store entry seq1 copied j w lt) = ⊥
IsOwn i (unmark entry seq1 copied w all) = ⊥
IsOwn i (call_read k r) = k ≡ i
IsOwn i (spin k r p) = k ≡ i
IsOwn i (begin k old r p) = k ≡ i
IsOwn i (copy k seq1 copied entry j r lt) = k ≡ i
IsOwn i (copied_all k seq1 copied entry r all) = k ≡ i
IsOwn i (retry k seq1 entry r p) = k ≡ i
IsOwn i (accept k seq1 entry r p) = k ≡ i
IsOwn i (leave k seq1 entry r) = k ≡ i

-- So many steps, all of the reader `i`.
pub data OwnSteps (n i : ℕ) (s : System) : ℕ → System → Type 0 where
  stay : OwnSteps n i s 0 s
  next :
      {m : ℕ} {t u : System}
      → OwnSteps n i s m t
      → (step : Step n t u) → IsOwn i step
      → OwnSteps n i s (suc m) u

-- The reader `i` has copied the first `k` words of `s`, and nothing else has moved.
record Copied (n : ℕ) (s : System) (i k : ℕ) : Type 0 where
  last : System
  steps : OwnSteps n i s (suc k) last
  same_seq : last.seq ≡ s.seq
  same_words : last.words ≡ s.words
  copied : Done
  entry : Entry
  stands : last.reader i ≡ copying s.seq copied entry
  done : (j : ℕ) → j < k → copied j ≡ true
  right : (j : ℕ) → j < k → entry j ≡ s.words j

update_here {ℓ} : {A : Type ℓ} (f : ℕ → A) (i : ℕ) (a : A) → update f i a i ≡ a
update_here f i a = ground arith

copy_words :
    (n : ℕ) (s : System) (i : ℕ)
    → s.reader i ≡ waiting
    → is_odd s.seq ≡ false
    → (k : ℕ) → k ≤ n
    → Copied n s i k
copy_words n s i e even zero le = record {
  last = record s {
    reader = update s.reader i (copying s.seq nothing_done s.words);
    since = update s.since i s.count;
  };
  steps = next stay (begin i s.words e even) refl;
  same_seq = refl;
  same_words = refl;
  copied = nothing_done;
  entry = s.words;
  stands = update_here s.reader i _;
  done = λ j lt. absurd (omega arith);
  right = λ j lt. absurd (omega arith);
}
copy_words n s i e even (suc k) le =
    let c = copy_words n s i e even k (omega arith) in
    record {
      last =
          move_reader c.last i
            (copying s.seq (update c.copied k true) (update c.entry k (c.last.words k)));
      steps = next c.steps (copy i s.seq c.copied c.entry k c.stands (omega arith)) refl;
      same_seq = c.same_seq;
      same_words = c.same_words;
      copied = update c.copied k true;
      entry = update c.entry k (c.last.words k);
      stands = update_here c.last.reader i _;
      done = λ j lt. ground (arith, c.done j);
      right = λ j lt. elim (Bool-cases (k == j)) [
        | inl here ↦ rw here (ap (λ (w : Entry). w k) c.same_words ∙ ap s.words (==→eq k j here))
        | inr before ↦ rw before (c.right j (ground arith))
      ];
    }

no_retry : (seq seq1 : ℕ) → seq ≡ seq1 → seq_lock_read_retry seq seq1 ≡ false
unfolding seq_lock_read_retry
no_retry seq seq1 e = ground arith

-- A reader that waits while the number is even can return by n + 3 steps of its own, for an entry of n
-- words, with no step of the writer or of another reader between them, and with every word as it stands
-- in memory.
pub read_returns :
    (n : ℕ) (s : System) (i : ℕ)
    → s.reader i ≡ waiting
    → is_odd s.seq ≡ false
    → (t : System) × (entry : Entry) × OwnSteps n i s (n + 3) t
      × (t.reader i ≡ returned s.seq entry)
      × Same n entry s.words
read_returns n s i e even =
    let c = copy_words n s i e even n (omega arith) in
    let checked = move_reader c.last i (checking s.seq c.entry) in
    let last = move_reader checked i (returned s.seq c.entry) in
    (
      last,
      c.entry,
      subst (λ m. OwnSteps n i s m last) (omega arith)
          (next (next c.steps (copied_all i s.seq c.copied c.entry c.stands c.done) refl)
            (accept i s.seq c.entry (update_here c.last.reader i _)
              (no_retry c.last.seq s.seq c.same_seq))
            refl),
      update_here checked.reader i _,
      c.right,
    )

-- While the number is odd no step takes a waiting reader out of the loop.
pub odd_blocks :
    (n : ℕ) (s t : System) (i : ℕ)
    → s.reader i ≡ waiting
    → is_odd s.seq ≡ true
    → Step n s t
    → t.reader i ≡ waiting
odd_blocks n s t i e odd (call_write entry w) = e
odd_blocks n s t i e odd (load_seq entry w) = e
odd_blocks n s t i e odd (mark entry seq1 w) = e
odd_blocks n s t i e odd (store entry seq1 copied j w lt) = e
odd_blocks n s t i e odd (unmark entry seq1 copied w all) = e
odd_blocks n s t i e odd (call_read k r) = ground arith
odd_blocks n s t i e odd (spin k r p) = ground arith
odd_blocks n s t i e odd (begin k old r p) = absurd (not_both p)
  where
    not_both : is_odd s.seq ≡ false → ⊥
    not_both q = cc
odd_blocks n s t i e odd (copy k seq1 copied entry j r lt) = ground arith
odd_blocks n s t i e odd (copied_all k seq1 copied entry r all) = ground arith
odd_blocks n s t i e odd (retry k seq1 entry r p) = ground arith
odd_blocks n s t i e odd (accept k seq1 entry r p) = ground arith
odd_blocks n s t i e odd (leave k seq1 entry r) = ground arith
