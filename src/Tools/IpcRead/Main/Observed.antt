-- ===== src/Tools/IpcRead/Main/Observed.antt =====
-- The memory that ipc_read looks at, when it is written by the protocol of seq_lock.h.
use tyndall.Base.{
  ◌∙◌, ap, sym, subst, ℕ, zero, suc, ◌+◌, ◌-◌, ◌/◌, ◌%◌, false, ◌^◌, ◌<◌, ◌≤◌, Bytes, get_or, ◌≡◌,
  refl, arith,
}
use tyndall.Ipc.SeqLock.{is_odd}
use tyndall.Ipc.SeqLock.Protocol.{
  Entry, Writer, entered, loaded, storing, System, Step, Reach, call_write, load_seq, mark, store,
  unmark, call_read, spin, begin, copy, copied_all, retry, accept, leave,
}
use tyndall.Ipc.SeqLock.Protocol.Invariant.{Same, WriterOk, Inv}
use tyndall.Ipc.SeqLock.Protocol.Moves.{at_writer, Step-Inv, Reach-Inv}
use tyndall.Tools.IpcRead.Main.{cacheline_bytes, ipc_seq}
use tyndall.Tools.IpcRead.Main.Guarded.{IsGuarded}

-- Any number of steps of the writer and of readers.
pub data Steps (n : ℕ) (s : System) : System → Type 0 where
  stay : Steps n s s
  next : {t u : System} → Steps n s t → Step n t u → Steps n s u

-- The writer and its readers run between the accesses of ipc_read, and the memory is what they make of it:
-- its number is that of the lock, and the bytes behind the first cache line are those of the entry.
pub record Observed (n : ℕ) (memory : ℕ → Bytes) : Type 0 where
  pub run : ℕ → System
  pub begins : Reach n (run 0)
  pub goes : (t : ℕ) → Steps n (run t) (run (suc t))
  pub layout : Entry → ℕ → ℕ
  pub number : (t : ℕ) → ipc_seq (memory t) ≡ (run t).seq
  pub bytes : (t i : ℕ) → cacheline_bytes ≤ i → get_or (memory t) i 0 ≡ layout (run t).words i

-- From a system to a later one: the number has been stored to no less often, and if no more often since it
-- was even, the words have not changed.
record Later (s t : System) : Type 0 where
  counted : s.count ≤ t.count
  same_words : t.count ≡ s.count → s.count % 2 ≡ 0 → t.words ≡ s.words

Later-refl : (s : System) → Later s s
Later-refl s = record { counted = omega arith; same_words = λ e even. refl }

unchanged : (s t : System) → t.count ≡ s.count → t.words ≡ s.words → Later s t
unchanged s t same_count same = record { counted = omega arith; same_words = λ e even. same }

Later-trans : (s t u : System) → Later s t → Later t u → Later s u
Later-trans s t u h h' = record {
  counted = omega (arith, h.counted, h'.counted);
  same_words = λ e even.
      let first : t.count ≡ s.count = omega (arith, h.counted, h'.counted) in
      h'.same_words (omega arith) (omega arith) ∙ h.same_words first even;
}

Step-Later : {n : ℕ} {s t : System} → Inv n s → Step n s t → Later s t
Step-Later {n} {s} inv (call_write entry w) = unchanged s _ refl refl
Step-Later {n} {s} inv (load_seq entry w) = unchanged s _ refl refl
Step-Later {n} {s} inv (mark entry seq1 w) = record {
  counted = omega arith;
  same_words = λ e even. absurd (omega arith);
}
Step-Later {n} {s} inv (store entry seq1 copied j w lt) =
    let (odd, here, stored, named) = at_writer n inv w in
    record { counted = omega arith; same_words = λ e even. absurd (omega arith) }
Step-Later {n} {s} inv (unmark entry seq1 copied w all) = record {
  counted = omega arith;
  same_words = λ e even. absurd (omega arith);
}
Step-Later {n} {s} inv (call_read k r) = unchanged s _ refl refl
Step-Later {n} {s} inv (spin k r p) = unchanged s _ refl refl
Step-Later {n} {s} inv (begin k old r p) = unchanged s _ refl refl
Step-Later {n} {s} inv (copy k seq1 copied entry j r lt) = unchanged s _ refl refl
Step-Later {n} {s} inv (copied_all k seq1 copied entry r all) = unchanged s _ refl refl
Step-Later {n} {s} inv (retry k seq1 entry r p) = unchanged s _ refl refl
Step-Later {n} {s} inv (accept k seq1 entry r p) = unchanged s _ refl refl
Step-Later {n} {s} inv (leave k seq1 entry r) = unchanged s _ refl refl

Steps-Later : {n : ℕ} {s t : System} → Inv n s → Steps n s t → Later s t × Inv n t
Steps-Later {n} {s} inv stay = (Later-refl s, inv)
Steps-Later {n} {s} inv (next {t} {u} steps step) =
    let (h, inv') = Steps-Later inv steps in
    (Later-trans s t u h (Step-Later inv' step), Step-Inv step inv')

module _ {n : ℕ} {memory : ℕ → Bytes} (o : Observed n memory) where
  run-Inv : (t : ℕ) → Inv n (o.run t)
  run-Inv zero = Reach-Inv o.begins
  run-Inv (suc t) = (Steps-Later (run-Inv t) (o.goes t)).1

  run-Later : (t k : ℕ) → Later (o.run t) (o.run (k + t))
  run-Later t zero =
      let same : t ≡ 0 + t = omega arith in
      subst (λ u. Later (o.run t) (o.run u)) same (Later-refl (o.run t))
  run-Later t (suc k) =
      let further : suc (k + t) ≡ suc k + t = omega arith in
      subst (λ u. Later (o.run t) (o.run u)) further
        (Later-trans (o.run t) (o.run (k + t)) (o.run (suc (k + t))) (run-Later t k)
          (Steps-Later (run-Inv (k + t)) (o.goes (k + t))).0)

  run-Later_le : (t1 t : ℕ) → t1 ≤ t → Later (o.run t1) (o.run t)
  run-Later_le t1 t le =
      let back : (t - t1) + t1 ≡ t = omega arith in
      subst (λ u. Later (o.run t1) (o.run u)) back (run-Later t1 (t - t1))

  -- A number read as even is that of an even count of stores.
  even_count : (t : ℕ) → is_odd (ipc_seq (memory t)) ≡ false → (o.run t).count % 2 ≡ 0
  even_count t even =
      let wrapped = (run-Inv t).wrapped in
      let number = o.number t in ground (arith, even, wrapped, number)

  -- Fewer than 2 ^ 32 stores to the number fall into the accesses from `from` on.
  abbrev pub IsShort : ℕ → Type 0
  IsShort from = (u : ℕ) → (o.run u).count < (o.run from).count + 2 ^ 32

  pub Observed-IsGuarded : (from : ℕ) → IsShort from → IsGuarded memory from
  Observed-IsGuarded from few t1 t t2 since le le2 same even i behind =
      let before = (run-Later_le from t1 since).counted in
      let step1 = run-Later_le t1 t le in
      let step2 = (run-Later_le t t2 le2).counted in
      let step1_count = step1.counted in
      let numbers : (o.run t2).count % 2 ^ 32 ≡ (o.run t1).count % 2 ^ 32 =
        sym (run-Inv t2).wrapped ∙ sym (o.number t2) ∙ same ∙ o.number t1 ∙ (run-Inv t1).wrapped in
      let few2 = few t2 in
      let kept : (o.run t).count ≡ (o.run t1).count =
        omega (arith, before, step1_count, step2, numbers, few2) in
      o.bytes t i behind
      ∙ ap (λ (w : Entry). o.layout w i) (step1.same_words kept (even_count t1 even))
      ∙ sym (o.bytes t1 i behind)

  settled_words :
      (seq count : ℕ) (words : Entry) (history : ℕ → Entry) (w : Writer)
      → WriterOk n seq count words history w
      → count % 2 ≡ 0
      → Same n words (history (count / 2))
  settled_words seq count words history Writer.idle (even, same) e = same
  settled_words seq count words history (entered entry) (even, same) e = same
  settled_words seq count words history (loaded entry seq1) ((even, same), raised) e = same
  settled_words seq count words history (storing entry seq1 copied) (odd, here, stored, named) e =
      absurd (omega arith)

  -- While no write is in progress the words are those of the last complete write.
  pub last_write :
      (t : ℕ)
      → is_odd (ipc_seq (memory t)) ≡ false
      → Same n (o.run t).words ((o.run t).history ((o.run t).count / 2))
  last_write t even =
      settled_words (o.run t).seq (o.run t).count (o.run t).words (o.run t).history (o.run t).writer
        (run-Inv t).writer_ok (even_count t even)
