-- ===== src/Ipc/Examples/Protocol.antt =====
-- One writer and one reader, entries of one word.
use tyndall.Base.{◌*◌, ◌/◌, ◌%◌, ◌^◌, true, ◌≡◌, refl, arith}
use tyndall.Ipc.SeqLock.{seq_lock_read_retry}
use tyndall.Ipc.SeqLock.Protocol.{
  update, Entry, nothing_done, waiting, returned, System, Reach, start, later, call_write, load_seq,
  mark, store, unmark, call_read, begin, copy, copied_all, AllDone,
}
use tyndall.Ipc.SeqLock.Protocol.Invariant.{Same, Inv}
use tyndall.Ipc.SeqLock.Protocol.Moves.{Step-Inv, Reach-Inv}
use tyndall.Ipc.SeqLock.Protocol.Safety.{accepted_whole}
use tyndall.Ipc.SeqLock.Protocol.Progress.{OwnSteps, read_returns, odd_blocks}

abbrev seven : Entry
seven j = 7

abbrev Reached : Type 0
Reached = (s : System) × Reach 1 s

first_done : AllDone 1 (update nothing_done 0 true)
first_done j lt = ground arith

-- The writer has called, loaded and marked.
abbrev marked : Reached
marked = (
  _,
  later (later (later start (call_write seven refl)) (load_seq seven refl)) (mark seven 1 refl),
)

-- The reader waits at the odd number.
abbrev blocked : Reached
blocked = (_, later marked.1 (call_read 0 refl))

-- The write is complete.
abbrev written : Reached
written = (
  _,
  later (later blocked.1 (store seven 1 nothing_done 0 refl (omega arith)))
      (unmark seven 1 (update nothing_done 0 true) refl first_done),
)

-- The reader has copied the word and is about to check.
abbrev checked : Reached
checked = (
  _,
  later
      (later (later written.1 (begin 0 (λ _. 0) refl refl))
        (copy 0 2 nothing_done (λ _. 0) 0 refl (omega arith)))
      (copied_all 0 2 (update nothing_done 0 true) (update (λ _. 0) 0 7) refl first_done),
)

accepted_whole_example :
    (checked.0.count % 2 ≡ 0)
    × (2 ≡ 2 * (checked.0.count / 2) % 2 ^ 32)
    × Same 1 (update (λ _. 0) 0 7) (checked.0.history (checked.0.count / 2))
unfolding seq_lock_read_retry
accepted_whole_example = accepted_whole checked.1 0 2 (update (λ _. 0) 0 7) refl refl (omega arith)

Step-Inv_test : Inv 1 blocked.0
Step-Inv_test = Step-Inv (call_read 0 refl) (Reach-Inv marked.1)

read_returns_example :
    (t : System) × (entry : Entry) × OwnSteps 1 0 written.0 4 t
    × (t.reader 0 ≡ returned 2 entry)
    × Same 1 entry written.0.words
read_returns_example = read_returns 1 written.0 0 refl refl

odd_blocks_test : (record blocked.0 { words = update blocked.0.words 0 7 }).reader 0 ≡ waiting
odd_blocks_test =
    odd_blocks 1 blocked.0 _ 0 refl refl (store seven 1 nothing_done 0 refl (omega arith))
