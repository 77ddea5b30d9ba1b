-- ===== src/Ipc/Examples/Bus.antt =====
-- Processes on topics, and system calls, at concrete inputs, and the theorems applied.
use tyndall.Base.{ℕ, Bytes, List, [], ◌∷◌, codes}
use tyndall.Ipc.Bus.Contract.{Call, lazy_write, lazy_read, rtid_write, rtid_read}

abbrev topic : Bytes
topic = codes "/my/topic"

-- Two processes on two topics.
abbrev calls : List (Call ℕ)
calls =
    lazy_read 1 topic
    ∷ lazy_write 0 topic 42
    ∷ rtid_write 0 (codes "other") 7
    ∷ lazy_read 1 topic
    ∷ lazy_read 1 topic
    ∷ rtid_read 1 (codes "/other")
    ∷ []
