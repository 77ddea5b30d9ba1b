-- ===== src/Ipc/Bus/Transports.antt =====
-- The registry of ipc_rtid.h as a table from names to the states of transports.
use tyndall.Base.{
  ◌∙◌, sym, subst, ℕ, zero, suc, Bool, true, false, if◌then◌else◌, Bool-cases, inl, inr, Option,
  none, some, bind-eq-some, Option-cases, Bytes, List, [], ◌∷◌, ◌++◌, length, ◌≡◌, refl,
}
use tyndall.Meta.Strval.{is_same}
use tyndall.Meta.Strval.Laws.{is_same_iff}
use tyndall.Ipc.SeqLock.{ReadState}
use tyndall.Ipc.Rtid.{RegistryItem, find_item}
use tyndall.Ipc.Bus.{put, transport_at, set_transport}

abbrev Registry : Type 0
Registry = List (RegistryItem ReadState)

-- The transport for a name.
unfoldable pub find_transport : Registry → Bytes → Option ReadState
find_transport [] name = none
find_transport (item ∷ registry) name =
    let later = find_transport registry name in
    if is_same item.id name then some item.transport else later

same_eq : (s t : Bytes) → is_same s t ≡ true → s ≡ t
same_eq s t e = (is_same_iff s t).0 e

-- If two names differ, no third one is the same as both.
not_both : (s t u : Bytes) → is_same s t ≡ false → is_same s u ≡ true → is_same t u ≡ false
not_both s t u ne e = elim (Bool-cases (is_same t u)) [
  | inl e' ↦ absurd (cc (sym ne ∙ (is_same_iff s t).1 (same_eq s u e ∙ sym (same_eq t u e'))))
  | inr e' ↦ e'
]

pub transport_at-find_item :
    (name : Bytes) (registry : Registry) (i : ℕ)
    → find_item name registry ≡ some i
    → (state : ReadState) × (transport_at i registry ≡ some state)
      × (find_transport registry name ≡ some state)
unfolding find_item find_transport
transport_at-find_item name [] i h = cc
transport_at-find_item name (item ∷ registry) i h = elim (Bool-cases (is_same item.id name)) [
  | inl e ↦
      let first : zero ≡ i = cc (rw (e) at h) in
      (
        item.transport,
        subst (λ k. transport_at k (item ∷ registry) ≡ some item.transport) first refl,
        rw (e),
      )
  | inr e ↦
      let (j, found, next) = bind-eq-some (find_item name registry) _ (rw (e) at h) in
      let (state, at, held) = transport_at-find_item name registry j found in
      let further : suc j ≡ i = cc next in
      (state, subst (λ k. transport_at k (item ∷ registry) ≡ some state) further at, rw (e) held)
]

module _ {A : Type 0} where
  override : (b : Bool) (x y z : A) → (if b then x else z) ≡ (if b then x else if b then y else z)
  override true x y z = refl
  override false x y z = refl

  exchange :
      (b c : Bool) (x y z : A)
      → (b ≡ true → c ≡ false)
      → (if b then y else if c then x else z) ≡ (if c then x else if b then y else z)
  exchange true true x y z only = absurd (cc (only refl))
  exchange true false x y z only = refl
  exchange false c x y z only = refl

-- Storing a transport's new state at its place changes the table at its name.
pub set_transport-found :
    (name : Bytes) (registry : Registry) (i : ℕ) (state : ReadState) (other : Bytes)
    → find_item name registry ≡ some i
    → find_transport (set_transport i state registry) other
      ≡ put (find_transport registry) name (some state) other
unfolding find_item find_transport
set_transport-found name [] i state other h = cc
set_transport-found name (item ∷ registry) i state other h =
    elim (Bool-cases (is_same item.id name)) [
      | inl e ↦
          let first : zero ≡ i = cc (rw (e) at h) in
          let own : item.id ≡ name = same_eq item.id name e in
          subst
            (λ k.
              find_transport (set_transport k state (item ∷ registry)) other
              ≡ put (find_transport (item ∷ registry)) name (some state) other)
            first
            (subst
              (λ n.
                (if is_same item.id other then some state else find_transport registry other) ≡ (
                  if is_same n other
                  then some state
                  else if is_same item.id other
                  then some item.transport
                  else find_transport registry other))
              own
              (override (is_same item.id other) (some state) (some item.transport)
                (find_transport registry other)))
      | inr e ↦
          let (j, found, next) = bind-eq-some (find_item name registry) _ (rw (e) at h) in
          let further : suc j ≡ i = cc next in
          subst
            (λ k.
              find_transport (set_transport k state (item ∷ registry)) other
              ≡ put (find_transport (item ∷ registry)) name (some state) other)
            further
            (rw (set_transport-found name registry j state other found) (
              exchange (is_same item.id other) (is_same name other) (some state)
                (some item.transport) (find_transport registry other)
                (λ q. not_both item.id name other e q)))
    ]

-- A transport that was missing is put at the end.
pub made_at_end :
    (name : Bytes) (registry : Registry) (made state : ReadState) (other : Bytes)
    → find_item name registry ≡ none
    → (find_transport registry name ≡ none)
      × (transport_at (length registry) (registry ++ record { id = name; transport = made } ∷ [])
          ≡ some made)
      × (find_transport
            (set_transport
              (length registry)
              state
              (registry ++ record { id = name; transport = made } ∷ []))
            other
          ≡ put (find_transport registry) name (some state) other)
unfolding find_item find_transport
made_at_end name [] made state other h = (refl, refl, refl)
made_at_end name (item ∷ registry) made state other h = elim (Bool-cases (is_same item.id name)) [
  | inl e ↦ absurd (cc (rw (e) at h))
  | inr e ↦ elim (Option-cases (find_item name registry)) [
    | inl missing ↦
        let (none_held, at, others) = made_at_end name registry made state other missing in
        (
          rw (e) none_held,
          at,
          rw (others) (
              exchange (is_same item.id other) (is_same name other) (some state)
                (some item.transport) (find_transport registry other)
                (λ q. not_both item.id name other e q)),
        )
    | inr (j, found) ↦ absurd (cc (rw (e, found) at h))
  ]
]
