-- ===== src/Ipc/Rtid.antt =====
-- tyndall/ipc/ipc_rtid.h: the registry of the readers or writers made for ids at run time.
pub mod Registry
use tyndall.Base.{
  bind, ℕ, zero, suc, Bool, if◌then◌else◌, Option, none, some, Bytes, List, [], ◌∷◌, ◌++◌, length,
  ◌+◌,
}
use tyndall.Meta.Strval.{is_same}
use tyndall.Meta.Strval.Decimal.{ToString}
use tyndall.Ipc.Id.{id_rtid_prepare}

-- `registry_item`
pub record RegistryItem {ℓ} (T : Type ℓ) : Type ℓ where
  pub id : Bytes
  pub transport : T

-- The loop over the registry: the place of the item whose id is the prepared one. The comparison of
-- strings is that of their bytes.
unfoldable pub find_item {ℓ} : {T : Type ℓ} → Bytes → List (RegistryItem T) → Option ℕ
find_item prepared_id [] = none
find_item prepared_id (item ∷ registry) =
    let later = find_item prepared_id registry in
    if is_same item.id prepared_id then some 0 else bind later (λ i. some (suc i))

-- `make` is the constructor of the transport, which opens shared memory of that name; `W` is the world.
-- A reference to a transport is its place in the registry.
module _ {ℓ κ} {T : Type ℓ} {W : Type κ} (make : Bytes → W → T × W) where
  -- Behind the loop.
  unfoldable pub found_or_made :
      Bytes → Option ℕ → List (RegistryItem T) → W → ℕ × List (RegistryItem T) × W
  found_or_made prepared_id (some i) registry w = (i, registry, w)
  found_or_made prepared_id none registry w =
      let (transport, w') = make prepared_id w in
      (length registry, registry ++ record { id = prepared_id; transport = transport } ∷ [], w')

  unfoldable pub create_ipc_rtid_lazy :
      ToString → Bool → Bytes → List (RegistryItem T) → W → ℕ × List (RegistryItem T) × W
  create_ipc_rtid_lazy std signed id registry w =
      let prepared_id = id_rtid_prepare std signed id in
      found_or_made prepared_id (find_item prepared_id registry) registry w
