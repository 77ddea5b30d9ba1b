-- ===== src/Ipc/SeqLock/Protocol/Safety.antt =====
-- No reader of seq_lock.h is handed a torn entry, or one that is out of date.
use tyndall.Base.{ℕ, ◌+◌, ◌*◌, ◌/◌, ◌%◌, ◌^◌, ◌<◌, false, ◌≡◌, ◌∙◌, arith}
use tyndall.Ipc.SeqLock.{seq_lock_read_retry}
use tyndall.Ipc.SeqLock.Protocol.{Entry, Writer, entered, loaded, storing, checking, System, Reach}
use tyndall.Ipc.SeqLock.Protocol.Invariant.{Same, WriterOk}
use tyndall.Ipc.SeqLock.Protocol.Moves.{Reach-Inv, at_reader}

-- Between two writes the words are those of the last.
settled :
    (n seq count : ℕ) (words : Entry) (history : ℕ → Entry) (w : Writer)
    → WriterOk n seq count words history w
    → count % 2 ≡ 0
    → Same n words (history (count / 2))
settled n seq count words history Writer.idle h even = h.1
settled n seq count words history (entered entry) h even = h.1
settled n seq count words history (loaded entry seq1) h even = h.0.1
settled n seq count words history (storing entry seq1 copied) h even = absurd (omega arith)

-- When the test of `seq_lock_read_retry` lets a reader return, then no write is in progress and the
-- reader has every word of the entry of the last complete write, if fewer than 2 ^ 32 stores to the
-- number (2 ^ 31 writes) fell into the round of its read.
pub accepted_whole :
    {n : ℕ} {s : System}
    → Reach n s
    → (i seq1 : ℕ) (entry : Entry) → s.reader i ≡ checking seq1 entry
    → seq_lock_read_retry s.seq seq1 ≡ false
    → s.count < s.since i + 2 ^ 32
    → (s.count % 2 ≡ 0)
      × (seq1 ≡ 2 * (s.count / 2) % 2 ^ 32)
      × Same n entry (s.history (s.count / 2))
unfolding seq_lock_read_retry
accepted_whole {n} {s} r i seq1 entry e passed few =
    let inv = Reach-Inv r in
    let ((le, even, began), same) = at_reader n i inv e in
    let now : s.count ≡ s.since i = ground (arith, inv.wrapped) in
    let quiet : s.count % 2 ≡ 0 = omega arith in
    let current = settled n s.seq s.count s.words s.history s.writer inv.writer_ok quiet in
    (quiet, omega arith, λ j lt. same now j lt ∙ current j lt)
