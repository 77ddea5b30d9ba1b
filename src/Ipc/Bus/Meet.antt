-- ===== src/Ipc/Bus/Meet.antt =====
-- `ipc_write` and `ipc_rtid_read` of one id meet in one topic.
use tyndall.Base.{ℕ, ◌≤◌, Bool, Bytes, length}
use tyndall.Meta.Strval.Decimal.{ToString}
use tyndall.Ipc.Bus.{Platform}
use tyndall.Ipc.Bus.Contract.{Board}
use tyndall.Ipc.Bus.Opens.{Opens}

module _ {ℓ} {A : Type ℓ} {W : Type 0} (platform : Platform W) (signed : Bool) (std : ToString)
    (zeroed : A) where
  -- No reader has seen more than there is.
  record Within (b : Board A) : Type ℓ where
    rtid : (p : ℕ) (topic : Bytes) → b.seen_rtid p topic ≤ length (b.messages topic)
