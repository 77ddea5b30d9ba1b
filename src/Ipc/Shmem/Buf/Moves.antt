-- ===== src/Ipc/Shmem/Buf/Moves.antt =====
-- Every operation of shmem_buf keeps one owner to every mapping.
use tyndall.Base.{
  ◌⊎◌, ◌∙◌, sym, ap, subst, ℕ, true, false, ◌==◌, ==→eq, eq→==, Bool-cases, inl, inr, Option, none,
  some, ◌≡◌, ◌≢◌, refl, arith,
}
use tyndall.Ipc.SeqLock.Protocol.{update}
use tyndall.Ipc.Shmem.Buf.{
  Bufs, uninit, init_buf, destroy, move_assign, move_construct, BufStep, initialized, destroyed,
  assigned, constructed,
}
use tyndall.Ipc.Shmem.Buf.Owner.{
  Owned, Owned-ext, update_here, update_other, update_held, destroy-Owned,
}

-- The objects behind a move from `other` to `i`.
abbrev moved : Bufs → ℕ → ℕ → ℕ → Option ℕ
moved s i other = update (update s.buf i (s.buf other)) other none

-- An empty object takes over what another holds.
transfer-Owned :
    (i other : ℕ) (s : Bufs)
    → i ≢ other
    → s.buf i ≡ none
    → Owned s
    → Owned (record s { buf = update (update s.buf i (s.buf other)) other none })
transfer-Owned i other s differ empty h = record { held = held'; alone = alone'; known = known' }
  where
    -- Who held the address before.
    origin :
        (k a : ℕ)
        → moved s i other k ≡ some a
        → ((i ≡ k) × (s.buf other ≡ some a)) ⊎ ((other ≢ k) × (s.buf k ≡ some a))
    origin k a e = elim (update_held (update s.buf i (s.buf other)) other none k a e) [
      | inl (_, nothing) ↦ absurd (cc nothing)
      | inr (ne, e') ↦ elim (update_held s.buf i (s.buf other) k a e') [
        | inl there ↦ inl there
        | inr (_, e'') ↦ inr (ne, e'')
      ]
    ]

    held' : (k a : ℕ) → moved s i other k ≡ some a → s.mapped a ≡ true
    held' k a e = elim (origin k a e) [ inl (_, q) ↦ h.held other a q | inr (_, q) ↦ h.held k a q ]

    alone' : (k l a : ℕ) → moved s i other k ≡ some a → moved s i other l ≡ some a → k ≡ l
    alone' k l a e e' = elim (origin k a e) [
      | inl (q, at) ↦ elim (origin l a e') [
        | inl (q', _) ↦ sym q ∙ q'
        | inr (ne, at') ↦ absurd (ne (h.alone other l a at at'))
      ]
      | inr (ne, at) ↦ elim (origin l a e') [
        | inl (_, at') ↦ absurd (ne (h.alone other k a at' at))
        | inr (_, at') ↦ h.alone k l a at at'
      ]
    ]

    known' : (a : ℕ) → s.mapped a ≡ true → (k : ℕ) × (moved s i other k ≡ some a)
    known' a m =
        let (k, e) = h.known a m in
        elim (Bool-cases (other == k)) [
          | inl q ↦
              let same : other ≡ k = ==→eq other k q in
              (
                i,
                update_other (update s.buf i (s.buf other)) other none i (λ x. differ (sym x))
                    ∙ (update_here s.buf i (s.buf other) ∙ (ap s.buf same ∙ e)),
              )
          | inr q ↦
              let ne : other ≢ k = ground (arith, q) in
              (
                k,
                update_other (update s.buf i (s.buf other)) other none k ne
                    ∙ (update_other s.buf i (s.buf other) k (λ x. empty_not k a x e) ∙ e),
              )
        ]
      where
        empty_not : (k a : ℕ) → i ≡ k → s.buf k ≡ some a → ⊥
        empty_not k a same e = absurd (cc (sym empty ∙ (ap s.buf same ∙ e)))

init-Owned :
    (i address : ℕ) (s : Bufs)
    → s.buf i ≡ none
    → s.mapped address ≡ false
    → Owned s
    → Owned (init_buf i address s)
unfolding init_buf
init-Owned i address s empty free h = record { held = held'; alone = alone'; known = known' }
  where
    held' :
        (k a : ℕ) → update s.buf i (some address) k ≡ some a → update s.mapped address true a ≡ true
    held' k a e = elim (update_held s.buf i (some address) k a e) [
      | inl (_, q) ↦ let at : address ≡ a = cc in rw (eq→== address a at)
      | inr (_, q) ↦ elim (Bool-cases (address == a)) [
        | inl p ↦ rw (p)
        | inr p ↦ rw (p) (h.held k a q)
      ]
    ]

    not_held : (k a : ℕ) → address ≡ a → s.buf k ≡ some a → ⊥
    not_held k a at e = absurd (cc (sym free ∙ (ap s.mapped at ∙ h.held k a e)))

    alone' :
        (k l a : ℕ)
        → update s.buf i (some address) k ≡ some a
        → update s.buf i (some address) l ≡ some a
        → k ≡ l
    alone' k l a e e' = elim (update_held s.buf i (some address) k a e) [
      | inl (q, at) ↦ elim (update_held s.buf i (some address) l a e') [
        | inl (q', _) ↦ sym q ∙ q'
        | inr (_, at') ↦ absurd (not_held l a (cc at) at')
      ]
      | inr (_, at) ↦ elim (update_held s.buf i (some address) l a e') [
        | inl (_, at') ↦ absurd (not_held k a (cc at') at)
        | inr (_, at') ↦ h.alone k l a at at'
      ]
    ]

    known' :
        (a : ℕ)
        → update s.mapped address true a ≡ true
        → (k : ℕ) × (update s.buf i (some address) k ≡ some a)
    known' a m = elim (Bool-cases (address == a)) [
      | inl q ↦ (i, update_here s.buf i (some address) ∙ ap some (==→eq address a q))
      | inr q ↦
          let (k, e) = h.known a (rw (q) at m) in
          (k, update_other s.buf i (some address) k (λ x. empty_not k a x e) ∙ e)
    ]
      where
        empty_not : (k a : ℕ) → i ≡ k → s.buf k ≡ some a → ⊥
        empty_not k a same e = absurd (cc (sym empty ∙ (ap s.buf same ∙ e)))

-- Assignment of an object to itself unmaps what it holds, and leaves it empty.
assign_self : (i : ℕ) (s : Bufs) → Owned s → Owned (move_assign i i s)
unfolding move_assign destroy uninit
assign_self i s h =
    Owned-ext (destroy i s) (move_assign i i s) (λ k. twice k) (λ a. refl) (destroy-Owned i s h)
  where
    twice : (k : ℕ) → update s.buf i none k ≡ update (update s.buf i (s.buf i)) i none k
    twice k = elim (Bool-cases (i == k)) [ inl q ↦ rw (q) | inr q ↦ rw (q) ]

assign_other : (i other : ℕ) (s : Bufs) → i ≢ other → Owned s → Owned (move_assign i other s)
unfolding move_assign destroy uninit
assign_other i other s ne h =
    Owned-ext _ (move_assign i other s) (λ k. cleared_first k) (λ a. refl)
      (transfer-Owned i other (destroy i s) ne (update_here s.buf i none) (destroy-Owned i s h))
  where
    cleared_first : (k : ℕ) → moved (destroy i s) i other k ≡ moved s i other k
    cleared_first k = elim (Bool-cases (other == k)) [
      | inl q ↦ rw (q)
      | inr q ↦ elim (Bool-cases (i == k)) [
        | inl p ↦ rw (q, p) (update_other s.buf i none other ne)
        | inr p ↦ rw (q, p)
      ]
    ]

-- Every operation keeps this: each address that is mapped is held by exactly one object, and an object
-- holds no address that is not mapped. The operations are init of an object that holds nothing, with an
-- address from mmap that was not in use, destruction, assignment of any object to any, itself included,
-- and construction of a new object from another.
pub BufStep-Owned : {s t : Bufs} → BufStep s t → Owned s → Owned t
unfolding move_construct
BufStep-Owned {s} (initialized i address empty free) h = init-Owned i address s empty free h
BufStep-Owned {s} (destroyed i) h = destroy-Owned i s h
BufStep-Owned {s} (assigned i other) h = elim (Bool-cases (i == other)) [
  | inl q ↦ subst (λ o. Owned (move_assign i o s)) (==→eq i other q) (assign_self i s h)
  | inr q ↦ assign_other i other s (ground (arith, q)) h
]
BufStep-Owned {s} (constructed i other ne empty) h = transfer-Owned i other s ne empty h
