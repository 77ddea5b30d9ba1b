-- ===== src/Ipc/SeqLock/Protocol/Invariant.antt =====
-- What the positions of the writer and of a reader say about shared memory.
use tyndall.Base.{ℕ, ◌+◌, ◌/◌, ◌%◌, ◌^◌, ◌<◌, ◌≤◌, true, ◌≡◌}
use tyndall.Ipc.SeqLock.{next_seq}
use tyndall.Ipc.SeqLock.Protocol.{
  Entry, Done, Writer, entered, loaded, storing, Reader, waiting, copying, checking, returned,
  System,
}

-- The first `n` words of two entries agree.
abbrev pub Same : ℕ → Entry → Entry → Type 0
Same n a b = (j : ℕ) → j < n → a j ≡ b j

-- The words that are copied agree.
abbrev pub SameDone : ℕ → Done → Entry → Entry → Type 0
SameDone n copied a b = (j : ℕ) → j < n → copied j ≡ true → a j ≡ b j

-- The writer: the words are those of the last complete write, or become those of the next.
abbrev pub Settled : ℕ → ℕ → Entry → (ℕ → Entry) → Type 0
Settled n count words history = (count % 2 ≡ 0) × Same n words (history (count / 2))

abbrev pub WriterOk : ℕ → (seq count : ℕ) → Entry → (ℕ → Entry) → Writer → Type 0
WriterOk n seq count words history Writer.idle = Settled n count words history
WriterOk n seq count words history (entered entry) = Settled n count words history
WriterOk n seq count words history (loaded entry seq1) =
    Settled n count words history × (seq1 ≡ next_seq seq)
WriterOk n seq count words history (storing entry seq1 copied) =
    (count % 2 ≡ 1)
    × (seq1 ≡ seq)
    × SameDone n copied words entry
    × Same n (history (count / 2 + 1)) entry

-- A reader whose number is `seq1`, taken at the count `since`.
abbrev pub Began : ℕ → ℕ → ℕ → Type 0
Began count since seq1 = (since ≤ count) × (since % 2 ≡ 0) × (seq1 ≡ since % 2 ^ 32)

-- A reader: what it has copied is right, unless a write has begun meanwhile.
abbrev pub ReaderOk : ℕ → (count : ℕ) → Entry → (since : ℕ) → Reader → Type 0
ReaderOk n count words since Reader.idle = Unit
ReaderOk n count words since waiting = Unit
ReaderOk n count words since (copying seq1 copied entry) =
    Began count since seq1 × (count ≡ since → SameDone n copied entry words)
ReaderOk n count words since (checking seq1 entry) =
    Began count since seq1 × (count ≡ since → Same n entry words)
ReaderOk n count words since (returned seq1 entry) = Unit

pub record Inv (n : ℕ) (s : System) : Type 0 where
  pub wrapped : s.seq ≡ s.count % 2 ^ 32
  pub writer_ok : WriterOk n s.seq s.count s.words s.history s.writer
  pub reader_ok : (i : ℕ) → ReaderOk n s.count s.words (s.since i) (s.reader i)
