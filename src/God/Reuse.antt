-- ===== src/God/Reuse.antt =====
-- What `child_handler` does where the system has given out a pid again.
use tyndall.Base.{
  ◌⊎◌, if◌then◌else◌, ◌∙◌, ap, ℕ, zero, suc, ◌+◌, ◌<◌, ◌≤◌, ◌==◌, eq→==, Bool-cases, inl, inr, true,
  Option, none, some, List, [], ◌∷◌, get_elem?, ◌≡◌, refl, arith,
}
use tyndall.God.{Child, Processes, find_child, handle_at, handle_found, handle_last, child_handler}
use tyndall.God.Reaping.{Reaps, child_handler-Reaps, child_inj, get_elem?-set}

find_child_keeps :
    (pid : ℕ) (children : List Child) (i k : ℕ)
    → (m : ℕ) × (find_child pid children i (some k) ≡ some m) × ((m ≡ k) ⊎ (i ≤ m))
unfolding find_child
find_child_keeps pid [] i k = (k, refl, inl refl)
find_child_keeps pid (c ∷ children) i k = elim (Bool-cases (c.pid == pid)) [
  | inl here ↦
      let (m, found, place) = find_child_keeps pid children (suc i) i in
      (m, rw (here) found, inr (elim place [ inl e ↦ omega arith | inr le ↦ omega arith ]))
  | inr other ↦
      let (m, found, place) = find_child_keeps pid children (suc i) k in
      (m, rw (other) found, elim place [ inl e ↦ inl e | inr le ↦ inr (omega arith) ])
]

find_child_last :
    (pid : ℕ) (children : List Child) (i j : ℕ) (found : Option ℕ) (d : Child)
    → get_elem? children j ≡ some d
    → d.pid ≡ pid
    → (m : ℕ) × (find_child pid children i found ≡ some m) × (i + j ≤ m)
unfolding find_child
find_child_last pid [] i j found d at_j same = absurd (cc at_j)
find_child_last pid (c ∷ children) i zero found d at_j same =
    let here : (c.pid == pid) ≡ true =
      eq→== c.pid pid (ap (λ (x : Child). x.pid) (child_inj at_j) ∙ same) in
    let (m, finds, place) = find_child_keeps pid children (suc i) i in
    (m, rw (here) finds, elim place [ inl e ↦ omega arith | inr le ↦ omega arith ])
find_child_last pid (c ∷ children) i (suc j) found d at_j same =
    let (m, finds, le) =
      find_child_last pid children (suc i) j (if c.pid == pid then some i else found) d at_j same in
    (m, finds, omega arith)

module _ {ℓ} {W : Type ℓ} (os : Processes W) where
  handle_at_keeps :
      (m i pid status : ℕ) (c : Child) (children : List Child) (at_m : Option Child) (w : W)
      → i < m
      → get_elem? children i ≡ some c
      → get_elem? (handle_at os at_m m status children w).0 i ≡ some c
  unfolding handle_at
  handle_at_keeps m i pid status c children none w lt at_i = at_i
  handle_at_keeps m i pid status c children (some d) w lt at_i =
      get_elem?-set children m i _ (omega arith) ∙ at_i

  -- If the process of a child ends alone, and a child behind it in the table, be it dead or alive, has a record
  -- with the same pid, since the system has given out the pid again, then the handler does nothing about
  -- the child that has ended: its record stays, so it is marked alive, and it is not respawned.
  pub child_handler_reused :
      (i j status : ℕ) (c d : Child) (children : List Child) (w w' : W)
      → i < j
      → get_elem? children i ≡ some c
      → get_elem? children j ≡ some d
      → d.pid ≡ c.pid
      → Reaps os w ((c.pid, status) ∷ []) w'
      → (children' : List Child) × (behind : W) × (child_handler os 2 children w
          ≡ some (children', behind))
        × (get_elem? children' i ≡ some c)
  unfolding handle_last handle_found
  child_handler_reused i j status c d children w w' lt at_i at_j same reaps =
      let (m, found, le) = find_child_last c.pid children 0 j none d at_j same in
      let (children', behind) = handle_last os (some (c.pid, status)) children w' in
      (
        children',
        behind,
        child_handler-Reaps os ((c.pid, status) ∷ []) children w w' reaps,
        rw (found) (
            handle_at_keeps m i c.pid status c children (get_elem? children m) w' (omega arith)
              at_i),
      )
