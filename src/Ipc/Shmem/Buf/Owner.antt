-- ===== src/Ipc/Shmem/Buf/Owner.antt =====
-- What it means that every mapping of shmem.h has one owner, and that the destructor keeps it so.
use tyndall.Base.{
  ◌⊎◌, ◌∙◌, sym, ap, subst, ℕ, true, false, ◌==◌, ==→eq, eq→==, ne→==, Bool-cases, inl, inr, Option,
  none, some, Option-cases, ◌≡◌, ◌≢◌, refl, arith,
}
use tyndall.Ipc.SeqLock.Protocol.{update}
use tyndall.Ipc.Shmem.Buf.{Bufs, uninit, destroy}

-- An address is mapped exactly if an object holds it, and then one object does.
pub record Owned (s : Bufs) : Type 0 where
  pub held : (i a : ℕ) → s.buf i ≡ some a → s.mapped a ≡ true
  pub alone : (i j a : ℕ) → s.buf i ≡ some a → s.buf j ≡ some a → i ≡ j
  pub known : (a : ℕ) → s.mapped a ≡ true → (i : ℕ) × (s.buf i ≡ some a)

-- Owned depends on what the functions give alone.
pub Owned-ext :
    (s t : Bufs)
    → ((i : ℕ) → s.buf i ≡ t.buf i)
    → ((a : ℕ) → s.mapped a ≡ t.mapped a)
    → Owned s
    → Owned t
Owned-ext s t hb hm h = record {
  held = λ i a e. sym (hm a) ∙ h.held i a (hb i ∙ e);
  alone = λ i j a e e'. h.alone i j a (hb i ∙ e) (hb j ∙ e');
  known = λ a m. (let (i, e) = h.known a (hm a ∙ m) in (i, sym (hb i) ∙ e));
}

pub update_here : {A : Type 0} (f : ℕ → A) (i : ℕ) (a : A) → update f i a i ≡ a
update_here f i a = rw (eq→== i i refl)

pub update_other : {A : Type 0} (f : ℕ → A) (i : ℕ) (a : A) (j : ℕ) → i ≢ j → update f i a j ≡ f j
update_other f i a j ne = rw (ne→== i j ne)

-- What an updated table of objects holds at `k`.
pub update_held :
    (f : ℕ → Option ℕ) (i : ℕ) (o : Option ℕ) (k a : ℕ)
    → update f i o k ≡ some a
    → ((i ≡ k) × (o ≡ some a)) ⊎ ((i ≢ k) × (f k ≡ some a))
update_held f i o k a e = elim (Bool-cases (i == k)) [
  | inl q ↦ inl (==→eq i k q, rw (q) at e)
  | inr q ↦ inr (ground (arith, q), rw (q) at e)
]

destroy_full :
    (i old : ℕ) (s : Bufs)
    → s.buf i ≡ some old
    → Owned s
    → Owned (record { buf = update s.buf i none; mapped = update s.mapped old false })
destroy_full i old s full h = record { held = held'; alone = alone'; known = known' }
  where
    held' : (k a : ℕ) → update s.buf i none k ≡ some a → update s.mapped old false a ≡ true
    held' k a e = elim (update_held s.buf i none k a e) [
      | inl (_, nothing) ↦ absurd (cc nothing)
      | inr (ne, e') ↦
          update_other s.mapped old false a (λ q. ne (h.alone i k a (full ∙ ap some q) e'))
          ∙ h.held k a e'
    ]

    alone' : (k l a : ℕ) → update s.buf i none k ≡ some a → update s.buf i none l ≡ some a → k ≡ l
    alone' k l a e e' = elim (update_held s.buf i none k a e) [
      | inl (_, nothing) ↦ absurd (cc nothing)
      | inr (_, q) ↦ elim (update_held s.buf i none l a e') [
        | inl (_, nothing) ↦ absurd (cc nothing)
        | inr (_, q') ↦ h.alone k l a q q'
      ]
    ]

    known' :
        (a : ℕ) → update s.mapped old false a ≡ true → (k : ℕ) × (update s.buf i none k ≡ some a)
    known' a m = elim (Bool-cases (old == a)) [
      | inl q ↦ absurd (cc (rw (q) at m))
      | inr q ↦
          let (k, e) = h.known a (rw (q) at m) in
          let other : old ≢ a = ground (arith, q) in
          (k, update_other s.buf i none k (λ same. other (held_one k a same e)) ∙ e)
    ]
      where
        held_one : (k a : ℕ) → i ≡ k → s.buf k ≡ some a → old ≡ a
        held_one k a same e = cc (full, ap s.buf same, e)

pub destroy-Owned : (i : ℕ) (s : Bufs) → Owned s → Owned (destroy i s)
unfolding destroy uninit
destroy-Owned i s h = elim (Option-cases (s.buf i)) [
  | inl empty ↦ Owned-ext s _ (λ k. cleared empty k) (λ a. rw (empty)) h
  | inr (old, full) ↦ Owned-ext _ _ (λ k. refl) (λ a. rw (full)) (destroy_full i old s full h)
]
  where
    cleared : s.buf i ≡ none → (k : ℕ) → s.buf k ≡ update s.buf i none k
    cleared empty k = elim (Bool-cases (i == k)) [
      | inl q ↦ let same : i ≡ k = ==→eq i k q in rw (q) (subst (λ x. s.buf x ≡ none) same empty)
      | inr q ↦ rw (q)
    ]
