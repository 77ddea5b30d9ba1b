-- ===== src/Ipc/Objects/Agree.antt =====
-- What the constructors of the transports open.
use tyndall.Base.{
  ◌∙◌, suc, ne→==, arith, ap, ℕ, Bool, true, false, ◌==◌, none, some, Bytes, [], ◌∷◌, length, ◌≡◌,
  ◌≢◌, refl,
}
use tyndall.Meta.Hash.{hash_fnv1a_32}
use tyndall.Meta.Strval.{occurrences, is_same, is_different}
use tyndall.Meta.Strval.Decimal.{ToString}
use tyndall.Ipc.Id.{id_prepare, id_remove_leading_slashes, slash}
use tyndall.Ipc.Id.Agree.{id_rtid_prepare-id_prepare}
use tyndall.Ipc.Id.Names.{id_prepare_legal}
use tyndall.Ipc.Objects.{
  Transport, can_write, can_read, construct_static, construct_named, ipc_writer, ipc_reader,
  ipc_rtid_writer, ipc_rtid_reader, create_ipc_writer, create_ipc_reader, create_ipc_rtid_writer,
  create_ipc_rtid_reader,
}

construct_static_opens :
    (t : Transport) (c : ℕ) (rest : Bytes)
    → occurrences t.id slash ≡ 0
    → t.id ≡ c ∷ rest
    → construct_static t ≡ some (some t.id)
unfolding construct_static is_different is_same
construct_static_opens t c rest no_slash there =
    let named : is_different t.id [] ≡ true = ap (λ s. is_different s []) there in
    rw (no_slash, named) refl

construct_named_refused :
    (t : Transport) (c : ℕ) (rest name : Bytes) → t.id ≡ c ∷ rest → construct_named t name ≡ none
unfolding construct_named
construct_named_refused t c rest name there =
    let long : (length t.id == 0) ≡ false =
      ap (λ (s : Bytes). length s == 0) there ∙ ne→== (suc (length rest)) 0 (omega arith) in
    rw (long) refl

-- For every id, the transports of ipc.h and those of ipc_rtid.h compile, and all of their constructors
-- open one shared memory, if the hash of the id is not 0; none is left without. A transport with an id
-- known at compile time takes no other at run time. Only writers can write, and only readers can read.
pub create_ipc_rtid_writer-create_ipc_writer :
    (std : ToString) (signed : Bool) (id other : Bytes)
    → hash_fnv1a_32 signed (id_remove_leading_slashes id) ≢ 0
    → (name : Bytes) × (create_ipc_writer signed id ≡ some (some name))
      × (create_ipc_reader signed id ≡ some (some name))
      × (create_ipc_rtid_writer std signed id ≡ some name)
      × (create_ipc_rtid_reader std signed id ≡ some name)
      × (construct_named (ipc_writer signed id) other ≡ none)
      × (construct_named (ipc_reader signed id) other ≡ none)
      × (can_write (ipc_writer signed id) ≡ true)
      × (can_read (ipc_writer signed id) ≡ false)
      × (can_write (ipc_reader signed id) ≡ false)
      × (can_read (ipc_reader signed id) ≡ true)
unfolding create_ipc_writer create_ipc_reader create_ipc_rtid_writer create_ipc_rtid_reader
    ipc_writer ipc_reader ipc_rtid_writer ipc_rtid_reader can_write can_read construct_named
create_ipc_rtid_writer-create_ipc_writer std signed id other ne =
    let (no_slash, (rest, there)) = id_prepare_legal signed id in
    let same = id_rtid_prepare-id_prepare std signed id ne in
    (
      id_prepare signed id,
      construct_static_opens (ipc_writer signed id) _ _ no_slash there,
      construct_static_opens (ipc_reader signed id) _ _ no_slash there,
      ap some same,
      ap some same,
      construct_named_refused (ipc_writer signed id) _ _ other there,
      construct_named_refused (ipc_reader signed id) _ _ other there,
      refl,
      refl,
      refl,
      refl,
    )
