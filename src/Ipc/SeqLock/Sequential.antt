-- ===== src/Ipc/SeqLock/Sequential.antt =====
-- What reads and writes of one lock give when they do not overlap.
use tyndall.Base.{
  ℕ, suc, ◌+◌, ◌*◌, ◌%◌, ◌^◌, ◌<◌, ◌≤◌, false, some, ◌≡◌, refl, arith, eq→==, ltb, ◌==◌,
  if◌then◌else◌,
}
use tyndall.Ipc.SeqLock.{
  SeqLock, ReadState, Rc, success, enomsg, eagain, init_state, is_odd, seq_lock_write_begin,
  seq_lock_write_end, seq_lock_read_begin, seq_lock_read_retry, write, read_loop, read_conclude,
  read,
}

-- The lock is unlocked, and its number is that after `k` writes.
pub record Idle {ℓ} {A : Type ℓ} (l : SeqLock A) (k : ℕ) : Type 0 where
  pub counted : l.seq ≡ 2 * k % 2 ^ 32

module _ {ℓ} {A : Type ℓ} where
  pub write-Idle : (a : A) (l : SeqLock A) (k : ℕ) → Idle l k → Idle (write a l) (k + 1)
  unfolding write seq_lock_write_begin seq_lock_write_end
  write-Idle a l k h = record { counted = omega arith }

  pub entry-write : (a : A) (l : SeqLock A) → (write a l).entry ≡ a
  unfolding write seq_lock_write_begin seq_lock_write_end
  entry-write a l = refl

  -- A lock with an even number is read in one round.
  pub read_loop_even :
      (fuel : ℕ) (l : SeqLock A)
      → is_odd l.seq ≡ false
      → read_loop (suc fuel) l ≡ some (l.seq, l.entry)
  unfolding read_loop seq_lock_read_begin seq_lock_read_retry
  read_loop_even fuel l even = rw even (rw (eq→== l.seq l.seq refl) refl)

  Idle-even : (k : ℕ) (l : SeqLock A) → Idle l k → is_odd l.seq ≡ false
  Idle-even k l h = ground (arith, h.counted)

-- The state of a reader that has last read behind the first `k` writes.
pub record Seen (state : ReadState) (k : ℕ) : Type 0 where
  pub prev : state.prev_seq ≡ 2 * k % 2 ^ 32
  pub once : state.has_read_once ≡ ltb 0 k

pub Seen-init : Seen init_state 0
Seen-init = record { prev = refl; once = refl }

-- The code that a reader which has seen `seen` of `written` writes is to get.
abbrev pub expected_rc : ℕ → ℕ → Rc
expected_rc seen written =
    if ltb seen written then success else if written == 0 then enomsg else eagain

read_conclude_lem :
    (seen written : ℕ) (state : ReadState)
    → Seen state seen
    → seen ≤ written
    → written < seen + 2 ^ 31
    → ((read_conclude (2 * written % 2 ^ 32) state).0 ≡ expected_rc seen written)
      × Seen (read_conclude (2 * written % 2 ^ 32) state).1 written
unfolding read_conclude
read_conclude_lem seen written state h le lt =
    (ground arith, record { prev = ground arith; once = ground arith })

module _ {ℓ} {A : Type ℓ} where
  -- A read of an unlocked lock ends, hands out the entry, and reports success exactly if there were
  -- writes since this reader's last read (fewer than 2 ^ 31 of them), else that there was no write
  -- at all or none that is new.
  pub read-Idle :
      (fuel seen written : ℕ) (l : SeqLock A) (state : ReadState)
      → Idle l written
      → Seen state seen
      → seen ≤ written
      → written < seen + 2 ^ 31
      → (state' : ReadState) × (read (suc fuel) l state
          ≡ some (expected_rc seen written, l.entry, state'))
        × Seen state' written
  unfolding read
  read-Idle fuel seen written l state idle h le lt =
      let (rc, seen') = read_conclude_lem seen written state h le lt in
      (_, rw (read_loop_even fuel l (Idle-even written l idle), idle.counted) (rw rc), seen')
