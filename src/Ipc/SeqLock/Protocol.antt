-- ===== src/Ipc/SeqLock/Protocol.antt =====
-- tyndall/ipc/seq_lock.h with one writer and any number of readers at work: each access to shared
-- memory is a step. The barriers of smp.h keep the accesses to the number in their places; between
-- two barriers the words of the entry are copied in any order, and a word more than once.
pub mod Invariant
pub mod Moves
pub mod Safety
pub mod Progress
use tyndall.Base.{ℕ, ◌+◌, ◌/◌, ◌<◌, Bool, true, false, if◌then◌else◌, ◌==◌, ◌≡◌, refl}
use tyndall.Ipc.SeqLock.{next_seq, is_odd, seq_lock_read_retry}

abbrev pub update {ℓ} : {A : Type ℓ} → (ℕ → A) → ℕ → A → ℕ → A
update f i a j = if i == j then a else f j

-- An entry: its words, of which the first `n` exist.
abbrev pub Entry : Type 0
Entry = ℕ → ℕ

-- The words copied so far.
abbrev pub Done : Type 0
Done = ℕ → Bool

abbrev pub nothing_done : Done
nothing_done j = false

abbrev pub AllDone : ℕ → Done → Type 0
AllDone n copied = (j : ℕ) → j < n → copied j ≡ true

-- Where the writer stands in `write`.
pub data Writer : Type 0 where
  idle : Writer
  entered : (entry : Entry) → Writer
  loaded : (entry : Entry) (seq1 : ℕ) → Writer  -- behind `++seq1`, before it is stored
  storing : (entry : Entry) (seq1 : ℕ) (copied : Done) → Writer

-- Where a reader stands in `read`.
pub data Reader : Type 0 where
  idle : Reader
  waiting : Reader  -- the loop of `seq_lock_read_begin`
  copying : (seq1 : ℕ) (copied : Done) (entry : Entry) → Reader
  checking : (seq1 : ℕ) (entry : Entry) → Reader  -- before the load of `seq_lock_read_retry`
  returned : (seq1 : ℕ) (entry : Entry) → Reader

-- `seq` and `words` are shared memory. The last three fields are no memory: the stores to `seq`
-- counted without wrap around, the entries of the writes from the first, and for each reader the
-- count at its last load of an even number.
pub record System : Type 0 where
  pub seq : ℕ
  pub words : Entry
  pub writer : Writer
  pub reader : ℕ → Reader
  pub count : ℕ
  pub history : ℕ → Entry
  pub since : ℕ → ℕ

-- Fresh shared memory is zero.
abbrev pub init : System
init = record {
  seq = 0;
  words = λ _. 0;
  writer = Writer.idle;
  reader = λ _. Reader.idle;
  count = 0;
  history = λ _ _. 0;
  since = λ _. 0;
}

abbrev pub move_reader : System → ℕ → Reader → System
move_reader s i r = record s { reader = update s.reader i r }

pub data Step (n : ℕ) (s : System) : System → Type 0 where
  call_write :
      (entry : Entry) → s.writer ≡ Writer.idle → Step n s (record s { writer = entered entry })
  load_seq :
      (entry : Entry)
      → s.writer ≡ entered entry
      → Step n s (record s { writer = loaded entry (next_seq s.seq) })
  mark :
      (entry : Entry) (seq1 : ℕ)
      → s.writer ≡ loaded entry seq1
      → Step n s (record s {
        seq = seq1;
        writer = storing entry seq1 nothing_done;
        count = s.count + 1;
        history = update s.history (s.count / 2 + 1) entry;
      })
  store :
      (entry : Entry) (seq1 : ℕ) (copied : Done) (j : ℕ)
      → s.writer ≡ storing entry seq1 copied
      → j < n
      → Step n s (record s {
        words = update s.words j (entry j);
        writer = storing entry seq1 (update copied j true);
      })
  unmark :
      (entry : Entry) (seq1 : ℕ) (copied : Done)
      → s.writer ≡ storing entry seq1 copied
      → AllDone n copied
      → Step n s (record s { seq = next_seq seq1; writer = Writer.idle; count = s.count + 1 })
  call_read : (i : ℕ) → s.reader i ≡ Reader.idle → Step n s (move_reader s i waiting)
  spin : (i : ℕ) → s.reader i ≡ waiting → is_odd s.seq ≡ true → Step n s (move_reader s i waiting)
  begin :
      (i : ℕ) (old : Entry)
      → s.reader i ≡ waiting
      → is_odd s.seq ≡ false
      → Step n s (record s {
        reader = update s.reader i (copying s.seq nothing_done old);
        since = update s.since i s.count;
      })
  copy :
      (i seq1 : ℕ) (copied : Done) (entry : Entry) (j : ℕ)
      → s.reader i ≡ copying seq1 copied entry
      → j < n
      → Step n s
          (move_reader s i (copying seq1 (update copied j true) (update entry j (s.words j))))
  copied_all :
      (i seq1 : ℕ) (copied : Done) (entry : Entry)
      → s.reader i ≡ copying seq1 copied entry
      → AllDone n copied
      → Step n s (move_reader s i (checking seq1 entry))
  retry :
      (i seq1 : ℕ) (entry : Entry)
      → s.reader i ≡ checking seq1 entry
      → seq_lock_read_retry s.seq seq1 ≡ true
      → Step n s (move_reader s i waiting)
  accept :
      (i seq1 : ℕ) (entry : Entry)
      → s.reader i ≡ checking seq1 entry
      → seq_lock_read_retry s.seq seq1 ≡ false
      → Step n s (move_reader s i (returned seq1 entry))
  leave :
      (i seq1 : ℕ) (entry : Entry)
      → s.reader i ≡ returned seq1 entry
      → Step n s (move_reader s i Reader.idle)

pub data Reach (n : ℕ) : System → Type 0 where
  start : Reach n init
  later : {s t : System} → Reach n s → Step n s t → Reach n t
