-- ===== src/Ipc/SeqLock.antt =====
-- tyndall/ipc/seq_lock.h: the sequence lock as one process runs it, with nobody else at work.
-- Protocol and its children interleave the accesses of a writer and of any number of readers.
-- `unsigned` has 32 bits. `padding` and the alignment are layout, and are left out.
pub mod Sequential
pub mod Mailbox
pub mod Crash
pub mod Protocol
use tyndall.Base.{
  ℕ, zero, suc, ◌+◌, ◌%◌, ◌^◌, Bool, true, false, not, ◌&&◌, if◌then◌else◌, ◌==◌, Option, none,
  some, bind,
}

-- `++seq1` of an unsigned.
abbrev pub next_seq : ℕ → ℕ
next_seq seq1 = (seq1 + 1) % 2 ^ 32

-- `seq1 & 1`
abbrev pub is_odd : ℕ → Bool
is_odd seq1 = seq1 % 2 == 1

pub record SeqLock {ℓ} (A : Type ℓ) : Type ℓ where
  pub seq : ℕ
  pub entry : A

-- `seq_lock_state`
pub record ReadState : Type 0 where
  pub prev_seq : ℕ
  pub has_read_once : Bool

abbrev pub init_state : ReadState
init_state = record { prev_seq = 0; has_read_once = false }

-- The return code of `read`: 0, or -1 with the value of `errno`.
pub data Rc : Type 0 where
  success : Rc
  enomsg : Rc
  eagain : Rc

-- Stores the incremented number and returns it.
unfoldable pub seq_lock_write_begin {ℓ} : {A : Type ℓ} → SeqLock A → SeqLock A × ℕ
seq_lock_write_begin l = let seq1 = next_seq l.seq in (record l { seq = seq1 }, seq1)

unfoldable pub seq_lock_write_end {ℓ} : {A : Type ℓ} → SeqLock A → ℕ → SeqLock A
seq_lock_write_end l seq1 = record l { seq = next_seq seq1 }

-- The loop waits while the number is odd; `none` means that it still waits.
unfoldable pub seq_lock_read_begin : ℕ → ℕ → Option ℕ
seq_lock_read_begin zero seq = none
seq_lock_read_begin (suc fuel) seq =
    let wait = seq_lock_read_begin fuel seq in if is_odd seq then wait else some seq

unfoldable pub seq_lock_read_retry : ℕ → ℕ → Bool
seq_lock_read_retry seq seq1 = not (seq == seq1)

unfoldable pub write {ℓ} : {A : Type ℓ} → A → SeqLock A → SeqLock A
write entry l =
    let (marked, seq1) = seq_lock_write_begin l in
    let stored = record marked { entry = entry } in seq_lock_write_end stored seq1

-- The `do` loop of `read`; `none` means that it has not ended yet.
unfoldable pub read_loop {ℓ} : {A : Type ℓ} → ℕ → SeqLock A → Option (ℕ × A)
read_loop zero l = none
read_loop (suc fuel) l =
    let again = read_loop fuel l in
    bind (seq_lock_read_begin (suc fuel) l.seq)
      (λ seq1. if seq_lock_read_retry l.seq seq1 then again else some (seq1, l.entry))

-- What `read` does behind its loop.
unfoldable pub read_conclude : ℕ → ReadState → Rc × ReadState
read_conclude seq1 state =
    if not (seq1 == state.prev_seq)
    then (
      success,
      record {
        prev_seq = seq1;
        has_read_once = if not state.has_read_once then true else state.has_read_once;
      },
    )
    else if (seq1 == 0) && not state.has_read_once
    then (enomsg, state)
    else (eagain, state)

-- The return code, the entry handed out (on every code), and the reader's new state.
unfoldable pub read {ℓ} : {A : Type ℓ} → ℕ → SeqLock A → ReadState → Option (Rc × A × ReadState)
read fuel l state =
    bind (read_loop fuel l)
      (λ (seq1, entry). let (rc, state') = read_conclude seq1 state in some (rc, entry, state'))
