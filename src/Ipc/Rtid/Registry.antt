-- ===== src/Ipc/Rtid/Registry.antt =====
-- What the registry of ipc_rtid.h promises over a sequence of calls.
use tyndall.Base.{
  bind-eq-some, ℕ, Bool, Bool-cases, inl, inr, none, some, Option-cases, Bytes, List, [], ◌∷◌, ◌++◌,
  length, ◌≡◌, refl,
}
use tyndall.Meta.Strval.{is_same}
use tyndall.Meta.Strval.Laws.{is_same_iff}
use tyndall.Meta.Strval.Decimal.{ToString}
use tyndall.Ipc.Id.{id_rtid_prepare}
use tyndall.Ipc.Rtid.{RegistryItem, find_item, found_or_made, create_ipc_rtid_lazy}

module _ {ℓ} {T : Type ℓ} where
  find_item-append :
      (p : Bytes) (registry more : List (RegistryItem T)) (i : ℕ)
      → find_item p registry ≡ some i
      → find_item p (registry ++ more) ≡ some i
  unfolding find_item
  find_item-append p [] more i h = cc
  find_item-append p (item ∷ registry) more i h = elim (Bool-cases (is_same item.id p)) [
    | inl e ↦ rw (e) (rw (e) at h)
    | inr e ↦
        let (j, found, next) = bind-eq-some (find_item p registry) _ (rw (e) at h) in
        rw (e, find_item-append p registry more j found) next
  ]

  find_item-made :
      (p : Bytes) (registry : List (RegistryItem T)) (t : T)
      → find_item p registry ≡ none
      → find_item p (registry ++ record { id = p; transport = t } ∷ []) ≡ some (length registry)
  unfolding find_item
  find_item-made p [] t h = rw ((is_same_iff p p).1 refl)
  find_item-made p (item ∷ registry) t h = elim (Bool-cases (is_same item.id p)) [
    | inl e ↦ absurd (cc (rw (e) at h))
    | inr e ↦ elim (Option-cases (find_item p registry)) [
      | inl missing ↦ rw (e, find_item-made p registry t missing)
      | inr (k, found) ↦ absurd (cc (rw (e, found) at h))
    ]
  ]

module _ {ℓ κ} {T : Type ℓ} {W : Type κ} (make : Bytes → W → T × W) (std : ToString)
    (signed : Bool) where
  -- The call on an id, and calls on ids in turn.
  abbrev lazy : Bytes → List (RegistryItem T) → W → ℕ × List (RegistryItem T) × W
  lazy id registry w = create_ipc_rtid_lazy make std signed id registry w

  unfoldable pub create_all : List Bytes → List (RegistryItem T) → W → List (RegistryItem T) × W
  create_all [] registry w = (registry, w)
  create_all (id ∷ ids) registry w =
      let (_, registry', w') = create_ipc_rtid_lazy make std signed id registry w in
      create_all ids registry' w'

  -- Behind a call the id is found at the place returned, and what was found before still is.
  found_behind :
      (id : Bytes) (registry : List (RegistryItem T)) (w : W)
      → find_item (id_rtid_prepare std signed id) (lazy id registry w).1
        ≡ some (lazy id registry w).0
  unfolding create_ipc_rtid_lazy found_or_made
  found_behind id registry w =
      elim (Option-cases (find_item (id_rtid_prepare std signed id) registry)) [
        | inl missing ↦ rw (missing) (
            find_item-made (id_rtid_prepare std signed id) registry
              (make (id_rtid_prepare std signed id) w).0 missing)
        | inr (k, found) ↦ rw (found) found
      ]

  still_found :
      (p id : Bytes) (registry : List (RegistryItem T)) (w : W) (i : ℕ)
      → find_item p registry ≡ some i
      → find_item p (lazy id registry w).1 ≡ some i
  unfolding create_ipc_rtid_lazy found_or_made
  still_found p id registry w i h =
      elim (Option-cases (find_item (id_rtid_prepare std signed id) registry)) [
        | inl missing ↦ rw (missing) (find_item-append p registry _ i h)
        | inr (k, found) ↦ rw (found) h
      ]

  all_found :
      (p : Bytes) (ids : List Bytes) (registry : List (RegistryItem T)) (w : W) (i : ℕ)
      → find_item p registry ≡ some i
      → find_item p (create_all ids registry w).0 ≡ some i
  unfolding create_all
  all_found p [] registry w i h = h
  all_found p (id ∷ ids) registry w i h =
      all_found p ids (lazy id registry w).1 (lazy id registry w).2 i
        (still_found p id registry w i h)

  found_again :
      (id : Bytes) (registry : List (RegistryItem T)) (w : W) (i : ℕ)
      → find_item (id_rtid_prepare std signed id) registry ≡ some i
      → lazy id registry w ≡ (i, registry, w)
  unfolding create_ipc_rtid_lazy found_or_made
  found_again id registry w i h = rw (h)

  -- After a call, and any calls on other ids, a call on an id that gets the same name returns the same
  -- transport, and makes none: registry and world stay as they are.
  pub create_ipc_rtid_lazy_again :
      (id id' : Bytes) (ids : List Bytes) (registry : List (RegistryItem T)) (w : W)
      → id_rtid_prepare std signed id' ≡ id_rtid_prepare std signed id
      → let (i, registry', w') = create_ipc_rtid_lazy make std signed id registry w in
        let (registry'', w'') = create_all ids registry' w' in
        create_ipc_rtid_lazy make std signed id' registry'' w'' ≡ (i, registry'', w'')
  create_ipc_rtid_lazy_again id id' ids registry w same =
      let (i, registry', w') = lazy id registry w in
      let (registry'', w'') = create_all ids registry' w' in
      found_again id' registry'' w'' i (
        rw (same) (
          all_found (id_rtid_prepare std signed id) ids registry' w' i
            (found_behind id registry w)))
