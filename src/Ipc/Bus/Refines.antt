-- ===== src/Ipc/Bus/Refines.antt =====
-- The calls of ipc.h and ipc_rtid.h give what their contract says.
use tyndall.Base.{Bool, List, [], ◌∷◌}
use tyndall.Meta.Strval.Decimal.{ToString}
use tyndall.Ipc.Id.{id_prepare, id_rtid_prepare}
use tyndall.Ipc.Bus.{Platform}
use tyndall.Ipc.Bus.Opens.{Opens}
use tyndall.Ipc.Bus.Contract.{Call, lazy_write, lazy_read, rtid_write, rtid_read}

module _ {ℓ} {A : Type ℓ} {W : Type 0} (platform : Platform W) (signed : Bool) (std : ToString)
    (zeroed : A) (opens : Opens platform) where
  -- The system takes the name of every topic that is called.
  abbrev pub CallsUsable : List (Call A) → Type 0
  CallsUsable [] = Unit
  CallsUsable (lazy_write p id a ∷ calls) = opens.Usable (id_prepare signed id) × CallsUsable calls
  CallsUsable (lazy_read p id ∷ calls) = opens.Usable (id_prepare signed id) × CallsUsable calls
  CallsUsable (rtid_write p id a ∷ calls) =
      opens.Usable (id_rtid_prepare std signed id) × CallsUsable calls
  CallsUsable (rtid_read p id ∷ calls) =
      opens.Usable (id_rtid_prepare std signed id) × CallsUsable calls
