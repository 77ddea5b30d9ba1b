-- ===== src/God/Respawn.antt =====
-- How often a child that keeps failing is started.
use tyndall.Base.{
  ◌∙◌, ap, sym, subst, ℕ, zero, suc, ◌+◌, ◌-◌, ◌^◌, ◌<◌, ◌≤◌, true, false, eq→==, ne→==, leb,
  Option, none, some, List, [], ◌∷◌, length, get_elem?, set, All, pos, negsuc, ◌≡◌, ◌≢◌, refl,
  arith,
}
use tyndall.God.{
  Child, Processes, sigint, respawn_bypass_statuses, count_bypass, find_child, forked, fork_child,
  child_argv, handle_death, handle_at, handle_found, handle_last, child_handler,
}
use tyndall.God.Reaping.{Reaps, child_inj, child_handler-Reaps}

-- No other child has the pid.
abbrev pub Alone : ℕ → ℕ → List Child → Type 0
Alone i pid children = (j : ℕ) (d : Child) → get_elem? children j ≡ some d → d.pid ≡ pid → j ≡ i

-- A status that does not bypass the respawn.
abbrev pub IsError : ℕ → Type 0
IsError status = (status ≢ 0) × (status ≢ sigint)

pub find_child_miss :
    (pid : ℕ) (children : List Child) (i : ℕ) (found : Option ℕ)
    → ((j : ℕ) (d : Child) → get_elem? children j ≡ some d → d.pid ≢ pid)
    → find_child pid children i found ≡ found
unfolding find_child
find_child_miss pid [] i found h = refl
find_child_miss pid (c ∷ children) i found h =
    rw (ne→== c.pid pid (h 0 c refl)) (find_child_miss pid children (suc i) found (λ j. h (suc j)))

pub find_child-Alone :
    (pid : ℕ) (children : List Child) (i k : ℕ) (found : Option ℕ) (c : Child)
    → get_elem? children i ≡ some c
    → c.pid ≡ pid
    → Alone i pid children
    → find_child pid children k found ≡ some (k + i)
unfolding find_child
find_child-Alone pid [] i k found c at_i same alone = absurd (cc at_i)
find_child-Alone pid (d ∷ children) zero k found c at_i same alone =
    let head_pid : d.pid ≡ pid = ap (λ (x : Child). x.pid) (child_inj at_i) ∙ same in
    rw (eq→== d.pid pid head_pid) (
      find_child_miss pid children (suc k) (some k)
        (λ j e at_j e_pid. absurd (omega (arith, alone (suc j) e at_j e_pid)))
      ∙ ap some (omega arith))
find_child-Alone pid (d ∷ children) (suc i) k found c at_i same alone =
    rw (ne→== d.pid pid (λ e. absurd (omega (arith, alone 0 d refl e)))) (
      find_child-Alone pid children i (suc k) found c at_i same
        (λ j e at_j e_pid. omega (arith, alone (suc j) e at_j e_pid))
      ∙ ap some (omega arith))

pub get_elem?-set_self :
    (children : List Child) (i : ℕ) (c d : Child)
    → get_elem? children i ≡ some c
    → get_elem? (set children i d) i ≡ some d
get_elem?-set_self [] i c d e = absurd (cc e)
get_elem?-set_self (x ∷ children) zero c d e = refl
get_elem?-set_self (x ∷ children) (suc i) c d e = get_elem?-set_self children i c d e

count_bypass-IsError :
    (status : ℕ) → IsError status → count_bypass status respawn_bypass_statuses 0 ≡ 0
unfolding count_bypass
count_bypass-IsError status (not_zero, not_sigint) =
    rw (ne→== status 0 not_zero, ne→== status sigint not_sigint) refl

module _ {ℓ} {W : Type ℓ} (os : Processes W) where
  -- `fork` succeeds.
  abbrev pub Forks : Type ℓ
  Forks =
      (argv : List (Option (List ℕ))) (w : W)
      → (pid : ℕ) × (w' : W) × (os.fork argv w ≡ (some pid, w'))

  -- The child at `i` ends again and again, with these statuses, each time alone, and `child_handler`
  -- runs each time. What else the world does in between is free.
  pub data Deaths (i : ℕ) : List Child → List ℕ → List Child → Type ℓ where
    none_dies : {children : List Child} → Deaths i children [] children
    dies :
        {children behind end : List Child} {status : ℕ} {statuses : List ℕ}
        → (c : Child) (w w' w'' : W) → get_elem? children i ≡ some c
        → c.alive ≡ true
        → Alone i c.pid children
        → Reaps os w ((c.pid, status) ∷ []) w'
        → child_handler os 2 children w ≡ some (behind, w'')
        → Deaths i behind statuses end
        → Deaths i children (status ∷ statuses) end

  pub handled :
      (children : List Child) (i status : ℕ) (c : Child) (w w' : W)
      → get_elem? children i ≡ some c
      → Alone i c.pid children
      → Reaps os w ((c.pid, status) ∷ []) w'
      → child_handler os 2 children w
        ≡ some (let (c', w'') = handle_death os c status w' in (set children i c', w''))
  unfolding handle_last handle_found handle_at
  handled children i status c w w' at_i alone h =
      let found : find_child c.pid children 0 none ≡ some i =
        find_child-Alone c.pid children i 0 none c at_i refl alone ∙ ap some (omega arith) in
      child_handler-Reaps os ((c.pid, status) ∷ []) children w w' h ∙ rw (found, at_i) refl

  -- What a death with an error does to a child.
  death_pos :
      Forks
      → (c : Child) (n status : ℕ) (w : W) → IsError status
      → c.respawn ≡ pos (suc n)
      → ((handle_death os c status w).0.alive ≡ true)
        × ((handle_death os c status w).0.respawn ≡ pos n)
  unfolding handle_death fork_child forked
  death_pos forks c n status w err e =
      let (pid, w', forks_to) =
        forks (child_argv (record c { respawn = pos (suc n); alive = false })) w in
      rw (e, ne→== (suc n) 0 (omega arith), count_bypass-IsError status err, forks_to) (refl, refl)

  death_zero :
      (c : Child) (status : ℕ) (w : W)
      → c.respawn ≡ pos 0
      → ((handle_death os c status w).0.alive ≡ false)
        × ((handle_death os c status w).0.respawn ≡ pos 0)
  unfolding handle_death
  death_zero c status w e = rw (e) (refl, refl)

  death_negsuc :
      Forks
      → (c : Child) (n status : ℕ) (w : W) → IsError status
      → c.respawn ≡ negsuc n
      → n + 1 < 2 ^ 31
      → ((handle_death os c status w).0.alive ≡ true)
        × ((handle_death os c status w).0.respawn ≡ negsuc (suc n))
  unfolding handle_death fork_child forked
  death_negsuc forks c n status w err e few =
      let (pid, w', forks_to) =
        forks (child_argv (record c { respawn = negsuc n; alive = false })) w in
      rw
        (
          e,
          count_bypass-IsError status err,
          forks_to,
          ne→== n (2 ^ 31 - 1) (λ q. absurd (omega arith)),
        )
        (refl, refl)

  -- A dead child does not die again.
  Deaths-dead :
      (i : ℕ) (c : Child) {children end : List Child} {statuses : List ℕ}
      → Deaths i children statuses end
      → get_elem? children i ≡ some c
      → c.alive ≡ false
      → (statuses ≡ []) × (children ≡ end)
  Deaths-dead i c none_dies at_i dead = (refl, refl)
  Deaths-dead i c (dies d w w' w'' at_i' lives alone ended runs more) at_i dead = absurd (
      let same : d.alive ≡ c.alive = ap (λ (x : Child). x.alive) (child_inj (sym at_i' ∙ at_i)) in
      cc (sym lives ∙ same ∙ dead))

  abbrev handled_to : List Child → W → Option (List Child × W)
  handled_to cs w = some (cs, w)

  fst_inj : {cs cs' : List Child} {w w' : W} → handled_to cs w ≡ handled_to cs' w' → cs ≡ cs'
  fst_inj e = cc

  -- The next state of the child that has died.
  died :
      (i status : ℕ) (c : Child) (children behind : List Child) (w w' w'' : W)
      → get_elem? children i ≡ some c
      → Alone i c.pid children
      → Reaps os w ((c.pid, status) ∷ []) w'
      → child_handler os 2 children w ≡ some (behind, w'')
      → get_elem? behind i ≡ some (handle_death os c status w').0
  died i status c children behind w w' w'' at_i alone ended runs =
      let e : set children i (handle_death os c status w').0 ≡ behind =
        fst_inj (sym (handled children i status c w w' at_i alone ended) ∙ runs) in
      subst (λ cs. get_elem? cs i ≡ some (handle_death os c status w').0) e
        (get_elem?-set_self children i c (handle_death os c status w').0 at_i)

  -- Let a child with `respawn` n, that is 0 or more, end with errors time after time, each time alone,
  -- where `fork` succeeds: it ends at most n + 1 times, so it is started at most n + 1 times, and it is
  -- alive as long as it has ended at most n times. `respawn` says how often it will be started again.
  pub Deaths-respawn :
      (i n : ℕ) (c : Child) (children end : List Child) (statuses : List ℕ)
      → Forks
      → Deaths i children statuses end
      → All IsError statuses
      → get_elem? children i ≡ some c
      → c.alive ≡ true
      → c.respawn ≡ pos n
      → (c' : Child) × (get_elem? end i ≡ some c')
        × (length statuses ≤ suc n)
        × (c'.alive ≡ leb (length statuses) n)
        × (c'.respawn ≡ pos (n - length statuses))
  Deaths-respawn i n c children end [] forks none_dies errors at_i lives budget =
      (c, at_i, omega arith, ground (arith, lives), budget ∙ ap pos (omega arith))
  Deaths-respawn i zero c children end (status ∷ statuses) forks
        (dies d w w' w'' at_i' lives' alone ended runs more) (err, errors) at_i lives budget =
      let same : d ≡ c = child_inj (sym at_i' ∙ at_i) in
      let (dead, spent) = death_zero d status w' (ap (λ (x : Child). x.respawn) same ∙ budget) in
      let d' = (handle_death os d status w').0 in
      let there = died i status d children _ w w' w'' at_i' alone ended runs in
      let (none_left, last) = Deaths-dead i d' more there dead in
      (
        d',
        subst (λ cs. get_elem? cs i ≡ some d') last there,
        rw (none_left) (omega arith),
        rw (none_left, dead) refl,
        rw (none_left) spent,
      )
  Deaths-respawn i (suc n) c children end (status ∷ statuses) forks
        (dies d w w' w'' at_i' lives' alone ended runs more) (err, errors) at_i lives budget =
      let same : d ≡ c = child_inj (sym at_i' ∙ at_i) in
      let (alive, left) =
        death_pos forks d n status w' err (ap (λ (x : Child). x.respawn) same ∙ budget) in
      let d' = (handle_death os d status w').0 in
      let there = died i status d children _ w w' w'' at_i' alone ended runs in
      let (c', at_end, bound, lives_on, respawn') =
        Deaths-respawn i n d' _ end statuses forks more errors there alive left in
      (c', at_end, omega arith, lives_on ∙ ground arith, respawn' ∙ ap pos (omega arith))

  -- A child with a negative `respawn` is alive again behind each of its deaths, where `fork` succeeds,
  -- until the int is used up.
  pub Deaths-infinite :
      (i n : ℕ) (c : Child) (children end : List Child) (statuses : List ℕ)
      → Forks
      → Deaths i children statuses end
      → All IsError statuses
      → get_elem? children i ≡ some c
      → c.alive ≡ true
      → c.respawn ≡ negsuc n
      → n + length statuses < 2 ^ 31
      → (c' : Child) × (get_elem? end i ≡ some c')
        × (c'.alive ≡ true)
        × (c'.respawn ≡ negsuc (n + length statuses))
  Deaths-infinite i n c children end [] forks none_dies errors at_i lives budget few =
      (c, at_i, lives, budget ∙ ap negsuc (omega arith))
  Deaths-infinite i n c children end (status ∷ statuses) forks
        (dies d w w' w'' at_i' lives' alone ended runs more) (err, errors) at_i lives budget few =
      let same : d ≡ c = child_inj (sym at_i' ∙ at_i) in
      let (alive, left) =
        death_negsuc forks d n status w' err (ap (λ (x : Child). x.respawn) same ∙ budget)
          (omega arith) in
      let d' = (handle_death os d status w').0 in
      let there = died i status d children _ w w' w'' at_i' alone ended runs in
      let (c', at_end, lives_on, respawn') =
        Deaths-infinite i (suc n) d' _ end statuses forks more errors there alive left
          (omega arith) in
      (c', at_end, lives_on, respawn' ∙ ap negsuc (omega arith))
