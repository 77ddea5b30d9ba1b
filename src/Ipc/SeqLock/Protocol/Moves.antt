-- ===== src/Ipc/SeqLock/Protocol/Moves.antt =====
-- Every step of seq_lock.h keeps the invariant.
use tyndall.Base.{
  ℕ, ◌+◌, ◌/◌, ◌%◌, ◌≤◌, true, false, Bool-cases, inl, inr, ◌==◌, ==→eq, ◌≡◌, refl, sym, ap, subst,
  ◌∙◌, arith,
}
use tyndall.Ipc.SeqLock.{next_seq, is_odd}
use tyndall.Ipc.SeqLock.Protocol.{
  update, Entry, Done, nothing_done, AllDone, Writer, loaded, storing, Reader, waiting, copying,
  checking, returned, System, init, Step, call_write, load_seq, mark, store, unmark, call_read,
  spin, begin, copy, copied_all, retry, accept, leave, Reach, start, later,
}
use tyndall.Ipc.SeqLock.Protocol.Invariant.{WriterOk, ReaderOk, Inv}

update_self {ℓ} : {A : Type ℓ} (f : ℕ → A) (i : ℕ) (a : A) → update f i a i ≡ a
update_self f i a = ground arith

-- A property of all readers is kept if it holds of the one that moves.
update_all {ℓ κ} :
    {A : Type ℓ} (P : ℕ → A → Type κ) (f : ℕ → A) (i : ℕ) (a : A)
    → P i a
    → ((k : ℕ) → P k (f k))
    → (k : ℕ) → P k (update f i a k)
update_all P f i a h rest k = elim (Bool-cases (i == k)) [
  | inl e ↦ rw e (subst (λ (m : ℕ). P m a) (==→eq i k e) h)
  | inr e ↦ rw e (rest k)
]

module _ (n : ℕ) where
  -- What a reader knows lasts while the count grows, and while it stays and the words do.
  ReaderOk-mono :
      (count count' : ℕ) (words words' : Entry)
      → count ≤ count'
      → (count' ≡ count → count' % 2 ≡ 0 → (j : ℕ) → words j ≡ words' j)
      → (since : ℕ) (r : Reader) → ReaderOk n count words since r
      → ReaderOk n count' words' since r
  ReaderOk-mono count count' words words' le kept since Reader.idle h = tt
  ReaderOk-mono count count' words words' le kept since waiting h = tt
  ReaderOk-mono count count' words words' le kept since (copying seq1 copied entry) (began, same) =
      (omega arith, λ e j lt d. same (omega arith) j lt d ∙ kept (omega arith) (omega arith) j)
  ReaderOk-mono count count' words words' le kept since (checking seq1 entry) (began, same) =
      (omega arith, λ e j lt. same (omega arith) j lt ∙ kept (omega arith) (omega arith) j)
  ReaderOk-mono count count' words words' le kept since (returned seq1 entry) h = tt

  -- The readers, at a move of the writer to `count'` and `words'`.
  readers_keep :
      (s : System) (count' : ℕ) (words' : Entry)
      → Inv n s
      → s.count ≤ count'
      → (count' ≡ s.count → count' % 2 ≡ 0 → (j : ℕ) → s.words j ≡ words' j)
      → (k : ℕ) → ReaderOk n count' words' (s.since k) (s.reader k)
  readers_keep s count' words' inv le kept k =
      ReaderOk-mono s.count count' s.words words' le kept (s.since k) (s.reader k) (inv.reader_ok k)

  -- A reader's move that touches no memory.
  reader_moves :
      (s : System) (i : ℕ) (r : Reader)
      → Inv n s
      → ReaderOk n s.count s.words (s.since i) r
      → Inv n (record s { reader = update s.reader i r })
  reader_moves s i r inv ok = record {
    wrapped = inv.wrapped;
    writer_ok = inv.writer_ok;
    reader_ok =
        update_all (λ m q. ReaderOk n s.count s.words (s.since m) q) s.reader i r ok inv.reader_ok;
  }

  pub at_writer :
      {s : System} {w : Writer}
      → Inv n s
      → s.writer ≡ w
      → WriterOk n s.seq s.count s.words s.history w
  at_writer {s} inv e = subst (λ w. WriterOk n s.seq s.count s.words s.history w) e inv.writer_ok

  pub at_reader :
      {s : System} {r : Reader} (i : ℕ)
      → Inv n s
      → s.reader i ≡ r
      → ReaderOk n s.count s.words (s.since i) r
  at_reader {s} i inv e = subst (λ r. ReaderOk n s.count s.words (s.since i) r) e (inv.reader_ok i)

  mark-Inv :
      (s : System) (entry : Entry) (seq1 : ℕ)
      → s.writer ≡ loaded entry seq1
      → Inv n s
      → Inv n (record s {
        seq = seq1;
        writer = storing entry seq1 nothing_done;
        count = s.count + 1;
        history = update s.history (s.count / 2 + 1) entry;
      })
  mark-Inv s entry seq1 e inv =
      let ((even, same), next) = at_writer inv e in
      record {
        wrapped = omega (arith, inv.wrapped);
        writer_ok = (omega arith, refl, λ j lt d. cc, λ j lt. ground arith);
        reader_ok = readers_keep s (s.count + 1) s.words inv (omega arith) (λ f odd j. refl);
      }

  store-Inv :
      (s : System) (entry : Entry) (seq1 : ℕ) (copied : Done) (i : ℕ)
      → s.writer ≡ storing entry seq1 copied
      → Inv n s
      → Inv n (record s {
        words = update s.words i (entry i);
        writer = storing entry seq1 (update copied i true);
      })
  store-Inv s entry seq1 copied i e inv =
      let (odd, here, stored, named) = at_writer inv e in
      record {
        wrapped = inv.wrapped;
        writer_ok = (odd, here, λ j lt d. ground (arith, stored j lt), named);
        reader_ok =
            readers_keep s s.count (update s.words i (entry i)) inv (omega arith)
              (λ f even j. absurd (omega arith));
      }

  unmark-Inv :
      (s : System) (entry : Entry) (seq1 : ℕ) (copied : Done)
      → s.writer ≡ storing entry seq1 copied
      → AllDone n copied
      → Inv n s
      → Inv n (record s { seq = next_seq seq1; writer = Writer.idle; count = s.count + 1 })
  unmark-Inv s entry seq1 copied e all inv =
      let (odd, here, stored, named) = at_writer inv e in
      let half : (s.count + 1) / 2 ≡ s.count / 2 + 1 = omega arith in
      record {
        wrapped = omega (arith, inv.wrapped);
        writer_ok = (
          omega arith,
          λ j lt.
              stored j lt (all j lt) ∙ sym (named j lt) ∙ ap (λ (k : ℕ). s.history k j) (sym half),
        );
        reader_ok = readers_keep s (s.count + 1) s.words inv (omega arith) (λ f even j. refl);
      }

  begin-Inv :
      (s : System) (i : ℕ) (old : Entry)
      → is_odd s.seq ≡ false
      → Inv n s
      → Inv n (record s {
        reader = update s.reader i (copying s.seq nothing_done old);
        since = update s.since i s.count;
      })
  begin-Inv s i old even inv = record {
    wrapped = inv.wrapped;
    writer_ok = inv.writer_ok;
    reader_ok = λ k. elim (Bool-cases (i == k)) [
      | inl e ↦ rw e ((omega arith, ground (arith, inv.wrapped), inv.wrapped), λ f j lt d. cc)
      | inr e ↦ rw e (inv.reader_ok k)
    ];
  }

  copy-Inv :
      (s : System) (i seq1 : ℕ) (copied : Done) (entry : Entry) (j : ℕ)
      → s.reader i ≡ copying seq1 copied entry
      → Inv n s
      → ReaderOk n s.count s.words
          (s.since i)
          (copying seq1 (update copied j true) (update entry j (s.words j)))
  copy-Inv s i seq1 copied entry j e inv =
      let (began, same) = at_reader i inv e in (began, λ f m lt d. ground (arith, same f m lt))

-- Every step of the writer or of a reader keeps the invariant.
pub Step-Inv : {n : ℕ} {s t : System} → Step n s t → Inv n s → Inv n t
Step-Inv {n} {s} (call_write entry e) inv = record {
  wrapped = inv.wrapped;
  writer_ok = at_writer n inv e;
  reader_ok = inv.reader_ok;
}
Step-Inv {n} {s} (load_seq entry e) inv =
    let settled = at_writer n inv e in
    record { wrapped = inv.wrapped; writer_ok = (settled, refl); reader_ok = inv.reader_ok }
Step-Inv {n} {s} (mark entry seq1 e) inv = mark-Inv n s entry seq1 e inv
Step-Inv {n} {s} (store entry seq1 copied j e lt) inv = store-Inv n s entry seq1 copied j e inv
Step-Inv {n} {s} (unmark entry seq1 copied e all) inv = unmark-Inv n s entry seq1 copied e all inv
Step-Inv {n} {s} (call_read i e) inv = reader_moves n s i waiting inv tt
Step-Inv {n} {s} (spin i e odd) inv = reader_moves n s i waiting inv tt
Step-Inv {n} {s} (begin i old e even) inv = begin-Inv n s i old even inv
Step-Inv {n} {s} (copy i seq1 copied entry j e lt) inv =
    reader_moves n s i _ inv (copy-Inv n s i seq1 copied entry j e inv)
Step-Inv {n} {s} (copied_all i seq1 copied entry e all) inv =
    let (began, same) = at_reader n i inv e in
    reader_moves n s i (checking seq1 entry) inv (began, λ f j lt. same f j lt (all j lt))
Step-Inv {n} {s} (retry i seq1 entry e r) inv = reader_moves n s i waiting inv tt
Step-Inv {n} {s} (accept i seq1 entry e r) inv = reader_moves n s i (returned seq1 entry) inv tt
Step-Inv {n} {s} (leave i seq1 entry e) inv = reader_moves n s i Reader.idle inv tt

Inv-init : (n : ℕ) → Inv n init
Inv-init n = record { wrapped = refl; writer_ok = (refl, λ j lt. refl); reader_ok = λ k. tt }

pub Reach-Inv : {n : ℕ} {s : System} → Reach n s → Inv n s
Reach-Inv {n} start = Inv-init n
Reach-Inv (later r st) = Step-Inv st (Reach-Inv r)
