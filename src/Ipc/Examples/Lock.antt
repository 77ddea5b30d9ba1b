-- ===== src/Ipc/Examples/Lock.antt =====
-- One sequence lock, used in turns.
use tyndall.Base.{ℕ, false, List, [], ◌∷◌, none, some, ◌≡◌, refl, arith}
use tyndall.Ipc.SeqLock.{
  SeqLock, ReadState, Rc, success, enomsg, eagain, init_state, write, read, read_loop,
  seq_lock_read_begin, seq_lock_read_retry, seq_lock_write_end, seq_lock_write_begin, read_conclude,
}
use tyndall.Ipc.SeqLock.Sequential.{Seen, Seen-init, write-Idle, read-Idle}
use tyndall.Ipc.SeqLock.Mailbox.{
  Call, put, poll, run_lock, run_mailbox, count_puts, run_lock-run_mailbox,
}
use tyndall.Ipc.SeqLock.Crash.{
  interrupted_write, write_all, read_after_crash, read_torn_after_crash,
}

abbrev zeroed : SeqLock ℕ
zeroed = record { seq = 0; entry = 0 }

-- The calls of tests/ipc/ipc.cpp on "/test/errors".
abbrev errors_test : List (Call ℕ)
errors_test = poll ∷ put 42 ∷ poll ∷ poll ∷ poll ∷ put 42 ∷ poll ∷ poll ∷ []

errors_test_codes :
    run_lock 1 errors_test zeroed init_state
    ≡ some (
        (enomsg, 0)
        ∷ (success, 42)
        ∷ (eagain, 42)
        ∷ (eagain, 42)
        ∷ (success, 42)
        ∷ (eagain, 42)
        ∷ [])
unfolding run_lock write read read_loop seq_lock_read_begin seq_lock_read_retry seq_lock_write_end
    seq_lock_write_begin read_conclude
errors_test_codes = refl

run_lock-run_mailbox_example :
    run_lock 1 errors_test zeroed init_state ≡ some (run_mailbox errors_test 0 false false)
unfolding count_puts
run_lock-run_mailbox_example = run_lock-run_mailbox 0 errors_test 0 (omega arith)

read-Idle_test :
    (state : ReadState) × (read 1 (write 42 zeroed) init_state
      ≡ some (success, (write 42 zeroed).entry, state))
    × Seen state 1
read-Idle_test =
    read-Idle 0 0 1 (write 42 zeroed) init_state
      (write-Idle 42 zeroed 0 (record { counted = refl })) Seen-init (omega arith) (omega arith)

read_after_crash_example :
    read 1000 (write_all (8 ∷ 9 ∷ []) (interrupted_write 7 zeroed)) init_state ≡ none
read_after_crash_example = read_after_crash 7 (8 ∷ 9 ∷ []) zeroed 1000 init_state refl

read_torn_after_crash_test :
    (r : Rc × ℕ × ReadState) × (read 1
        (interrupted_write 9 (write_all (8 ∷ []) (interrupted_write 7 zeroed)))
        init_state
      ≡ some r)
    × (r.1 ≡ 9)
read_torn_after_crash_test = read_torn_after_crash 7 9 (8 ∷ []) zeroed 0 init_state refl
