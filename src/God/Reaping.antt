-- ===== src/God/Reaping.antt =====
-- What `child_handler` does about the processes that have ended.
use tyndall.Base.{
  ◌∙◌, ap, sym, ℕ, zero, suc, ◌+◌, ◌==◌, ==→eq, Bool-cases, inl, inr, Option, none, some,
  Option-cases, List, [], ◌∷◌, ◌++◌, length, get_elem?, set, ◌≡◌, ◌≢◌, ◌⊎◌, refl, arith,
}
use tyndall.God.{
  Child, Processes, find_child, reap, handle_at, handle_found, handle_last, child_handler,
}

-- `waitpid` gives these processes in turn, and then no other.
abbrev pub Reaps {ℓ} : {W : Type ℓ} (os : Processes W) → W → List (ℕ × ℕ) → W → Type ℓ
Reaps {W} os w [] w' = os.waitpid w ≡ (none, w')
Reaps {W} os w (ended ∷ more) w' =
    (between : W) × (os.waitpid w ≡ (some ended, between)) × Reaps os between more w'

-- The last of them, if there is one.
abbrev pub last_of : Option (ℕ × ℕ) → List (ℕ × ℕ) → Option (ℕ × ℕ)
last_of last [] = last
last_of last (ended ∷ more) = last_of (some ended) more

last_of-append :
    (last : Option (ℕ × ℕ)) (earlier : List (ℕ × ℕ)) (ended : ℕ × ℕ)
    → last_of last (earlier ++ (ended ∷ [])) ≡ some ended
last_of-append last [] ended = refl
last_of-append last (e ∷ earlier) ended = last_of-append (some e) earlier ended

-- What the search has found has the pid.
abbrev pub Found : ℕ → List Child → ℕ → Type 0
Found pid children k = (c : Child) × (get_elem? children k ≡ some c) × (c.pid ≡ pid)

pub find_child-Found :
    (pid : ℕ) (children : List Child) (i k : ℕ) (found : Option ℕ)
    → find_child pid children i found ≡ some k
    → (found ≡ some k) ⊎ ((j : ℕ) × (k ≡ i + j) × Found pid children j)
unfolding find_child
find_child-Found pid [] i k found e = inl e
find_child-Found pid (c ∷ children) i k found e = elim (Bool-cases (c.pid == pid)) [
  | inl same ↦ elim (find_child-Found pid children (suc i) k (some i) (rw (same) at e)) [
    | inl here ↦ let i_k : i ≡ k = cc in inr (0, omega arith, (c, refl, ==→eq c.pid pid same))
    | inr (j, place, there) ↦ inr (suc j, omega arith, there)
  ]
  | inr other ↦ elim (find_child-Found pid children (suc i) k found (rw (other) at e)) [
    | inl before ↦ inl before
    | inr (j, place, there) ↦ inr (suc j, omega arith, there)
  ]
]

pub get_elem?-set :
    (children : List Child) (i j : ℕ) (c : Child)
    → i ≢ j
    → get_elem? (set children i c) j ≡ get_elem? children j
get_elem?-set [] i j c ne = refl
get_elem?-set (d ∷ children) zero zero c ne = absurd (ne refl)
get_elem?-set (d ∷ children) zero (suc j) c ne = refl
get_elem?-set (d ∷ children) (suc i) zero c ne = refl
get_elem?-set (d ∷ children) (suc i) (suc j) c ne =
    get_elem?-set children i j c (λ e. ne (ap suc e))

pub child_inj : {c d : Child} → some c ≡ some d → c ≡ d
child_inj e = cc

module _ {ℓ} {W : Type ℓ} (os : Processes W) where
  reap-Reaps :
      (last : Option (ℕ × ℕ)) (ended : List (ℕ × ℕ)) (w w' : W)
      → Reaps os w ended w'
      → reap os (suc (length ended)) last w ≡ some (last_of last ended, w')
  unfolding reap
  reap-Reaps last [] w w' h = rw (h) refl
  reap-Reaps last (e ∷ ended) w w' (between, first, h) =
      rw (first) (reap-Reaps (some e) ended between w' h)

  pub child_handler-Reaps :
      (ended : List (ℕ × ℕ)) (children : List Child) (w w' : W)
      → Reaps os w ended w'
      → child_handler os (suc (length ended)) children w
        ≡ some (handle_last os (last_of none ended) children w')
  unfolding child_handler
  child_handler-Reaps ended children w w' h = rw (reap-Reaps none ended w w' h) refl

  handle_at_others :
      (i j pid status : ℕ) (c d : Child) (children : List Child) (w : W)
      → get_elem? children i ≡ some c
      → c.pid ≡ pid
      → get_elem? children j ≡ some d
      → d.pid ≢ pid
      → get_elem? (handle_at os (get_elem? children i) i status children w).0 j ≡ some d
  unfolding handle_at
  handle_at_others i j pid status c d children w at_i c_pid at_j other =
      let apart : i ≢ j = λ e. other (
        ap (λ (x : Child). x.pid) (child_inj (sym at_j ∙ ap (get_elem? children) (sym e) ∙ at_i))
        ∙ c_pid) in
      rw (at_i) (get_elem?-set children i j _ apart ∙ at_j)

  handle_last_others :
      (pid status j : ℕ) (d : Child) (children : List Child) (w : W)
      → get_elem? children j ≡ some d
      → d.pid ≢ pid
      → get_elem? (handle_last os (some (pid, status)) children w).0 j ≡ some d
  unfolding handle_last handle_found
  handle_last_others pid status j d children w at_j other =
      elim (Option-cases (find_child pid children 0 none)) [
        | inl nobody ↦ rw (nobody) at_j
        | inr (k, found) ↦ elim (find_child-Found pid children 0 k none found) [
          | inl e ↦ absurd (cc e)
          | inr (i, place, (c, at_i, c_pid)) ↦
              let k_i : k ≡ i = omega arith in
              rw (found, k_i) (handle_at_others i j pid status c d children w at_i c_pid at_j other)
        ]
      ]

  -- If several processes have ended when `child_handler` runs, then it takes them all off the system,
  -- but only the last one is acted on: every child with another pid, also one that has just been taken,
  -- keeps its record, so it stays marked alive and is not respawned.
  pub child_handler_others :
      (earlier : List (ℕ × ℕ)) (pid status j : ℕ) (d : Child) (children : List Child) (w w' : W)
      → Reaps os w (earlier ++ ((pid, status) ∷ [])) w'
      → get_elem? children j ≡ some d
      → d.pid ≢ pid
      → (children' : List Child) × (behind : W) × (child_handler os
            (suc (length (earlier ++ ((pid, status) ∷ []))))
            children
            w
          ≡ some (children', behind))
        × (get_elem? children' j ≡ some d)
  child_handler_others earlier pid status j d children w w' h at_j other =
      let ended = earlier ++ ((pid, status) ∷ []) in
      let (children', behind) = handle_last os (some (pid, status)) children w' in
      (
        children',
        behind,
        child_handler-Reaps ended children w w' h
            ∙ ap (λ last. some (handle_last os last children w'))
                (last_of-append none earlier (pid, status)),
        handle_last_others pid status j d children w' at_j other,
      )
