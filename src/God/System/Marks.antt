-- ===== src/God/System/Marks.antt =====
-- The marks `alive` of god's children follow the processes.
use tyndall.Base.{
  ◌==◌, ==→eq, arith, ◌∙◌, ap, sym, ℕ, true, false, Bool-cases, ltb, eq_ℤ, pos, ℤ, ◌⊎◌, inl, inr,
  Option, none, some, Option-cases, Bytes, List, get_elem?, set, ◌≡◌, ◌≢◌, refl,
}
use tyndall.God.{
  handle_last, handle_found, handle_at, find_child, Child, Processes, child_argv, forked,
  fork_child, handle_death, decrement, respawn_bypass_statuses, count_bypass,
}
use tyndall.God.Reaping.{find_child-Found, get_elem?-set, child_inj}
use tyndall.God.Respawn.{Alone, find_child-Alone, get_elem?-set_self}
use tyndall.God.System.{Kernel, Marked}

module _ {ℓ} {W : Type ℓ} (os : Processes W) (kernel : Kernel os) where
  -- Nothing about the processes changes.
  abbrev Keeps : W → W → Type 0
  Keeps w w' =
      (p : ℕ) → (kernel.running p w' ≡ kernel.running p w) × (kernel.used p w' ≡ kernel.used p w)

  -- What becomes of the record of a child that has ended: it stays, marked dead, or it stands for a new
  -- process.
  abbrev Left : Child → Child → W → W → Type 0
  Left c c' w w' = (c'.pid ≡ c.pid) × (c'.alive ≡ false) × Keeps w w'

  abbrev Started : Child → W → W → Type ℓ
  Started c' w w' =
      (argv : List (Option Bytes)) × (c'.alive ≡ true) × (os.fork argv w ≡ (some c'.pid, w'))

  forked_cases :
      (c : Child) (argv : List (Option Bytes)) (w : W) (result : Option ℕ × W)
      → os.fork argv w ≡ result
      → c.alive ≡ false
      → let (c', w') = forked os c result in Left c c' w w' ⊎ Started c' w w'
  unfolding forked
  forked_cases c argv w (none, w') fails dead =
      inl (refl, dead, λ p. kernel.fork_fails argv w w' p fails)
  forked_cases c argv w (some pid, w') succeeds dead = inr (argv, refl, succeeds)

  respawned :
      (c c' : Child) (n : ℤ) (w w' : W)
      → Left c c' w w' ⊎ Started c' w w'
      → Left c (record c' { respawn = n }) w w' ⊎ Started (record c' { respawn = n }) w w'
  respawned c c' n w w' (inl left) = inl left
  respawned c c' n w w' (inr started) = inr started

  handle_death_cases :
      (c : Child) (status : ℕ) (w : W)
      → let (c', w') = handle_death os c status w in Left c c' w w' ⊎ Started c' w w'
  unfolding handle_death fork_child
  handle_death_cases c status w =
      let dead = record c { alive = false } in
      let (c', w') = fork_child os dead w in
      elim (Bool-cases (eq_ℤ c.respawn (pos 0))) [
        | inl zero_left ↦ rw (zero_left) (inl (refl, refl, λ p. (refl, refl)))
        | inr more ↦ elim (Bool-cases (ltb 0 (count_bypass status respawn_bypass_statuses 0))) [
          | inl bypassed ↦ rw (more, bypassed) (inl (refl, refl, λ p. (refl, refl)))
          | inr failed ↦
              rw (more, failed)
                (respawned c c' (decrement c'.respawn) w w'
                  (forked_cases dead (child_argv dead) w (os.fork (child_argv dead) w) refl refl))
        ]
      ]

  -- What a record needs that takes the place of the one for `pid`.
  record Next (pid : ℕ) (c' : Child) (w w' : W) : Type 0 where
    marked : c'.alive ≡ kernel.running c'.pid w'
    used_now : kernel.used c'.pid w' ≡ true
    others :
        (p : ℕ)
        → kernel.used p w ≡ true
        → p ≢ pid
        → (p ≢ c'.pid) × (kernel.running p w' ≡ kernel.running p w) × (kernel.used p w' ≡ true)

  successor :
      (pid : ℕ) (c c' : Child) (w w' : W)
      → c.pid ≡ pid
      → kernel.used pid w ≡ true
      → kernel.running pid w ≡ false
      → Left c c' w w' ⊎ Started c' w w'
      → Next pid c' w w'
  successor pid c c' w w' same known gone (inl (kept, dead, keeps)) =
      let at_pid : c'.pid ≡ pid = kept ∙ same in
      record {
        marked = rw (at_pid) (dead ∙ sym ((keeps pid).0 ∙ gone));
        used_now = rw (at_pid) ((keeps pid).1 ∙ known);
        others = λ p was_used apart. (λ e. apart (e ∙ at_pid), (keeps p).0, (keeps p).1 ∙ was_used);
      }
  successor pid c c' w w' same known gone (inr (argv, lives, forks)) =
      let (fresh, runs, used_now) = kernel.fork_starts argv w w' c'.pid forks in
      record {
        marked = lives ∙ sym runs;
        used_now = used_now;
        others = λ p was_used apart.
            let differs : p ≢ c'.pid = λ e. absurd (
              let was : kernel.used c'.pid w ≡ true =
                ap (λ q. kernel.used q w) (sym e) ∙ was_used in
              cc (sym fresh ∙ was)) in
            let (same_runs, same_used) = kernel.fork_others argv w w' c'.pid p forks differs in
            (differs, same_runs, same_used ∙ was_used);
      }

  set_cases :
      (cs : List Child) (i j : ℕ) (c c' d : Child)
      → get_elem? cs i ≡ some c
      → get_elem? (set cs i c') j ≡ some d
      → ((j ≡ i) × (d ≡ c')) ⊎ ((j ≢ i) × (get_elem? cs j ≡ some d))
  set_cases cs i j c c' d at_i at_j = elim (Bool-cases (j == i)) [
    | inl e ↦
        let same : j ≡ i = ==→eq j i e in
        inl (same, child_inj (sym (rw (same) at at_j) ∙ get_elem?-set_self cs i c c' at_i))
    | inr e ↦
        let other : i ≢ j = ground arith in
        inr (λ q. other (sym q), sym (get_elem?-set cs i j c' other) ∙ at_j)
  ]

  -- The world behind an end, and behind the calls of `waitpid`.
  abbrev pub After : ℕ → W → W → Type 0
  After pid v w =
      (kernel.running pid w ≡ false)
      × ((p : ℕ) → p ≢ pid → kernel.running p w ≡ kernel.running p v)
      × ((p : ℕ) → kernel.used p w ≡ kernel.used p v)

  set-Marked :
      (cs : List Child) (v w w' : W) (i pid : ℕ) (c c' : Child)
      → Marked os kernel cs v
      → After pid v w
      → get_elem? cs i ≡ some c
      → c.pid ≡ pid
      → Next pid c' w w'
      → Marked os kernel (set cs i c') w'
  set-Marked cs v w w' i pid c c' m (gone, running_same, used_same) at_i same next =
      let other_pid : (j : ℕ) (d : Child) → get_elem? cs j ≡ some d → j ≢ i → d.pid ≢ pid =
        λ j d at_j ne e. ne (m.apart i c at_i j d at_j (e ∙ sym same)) in
      let still_used : (j : ℕ) (d : Child) → get_elem? cs j ≡ some d → kernel.used d.pid w ≡ true =
        λ j d at_j. used_same d.pid ∙ m.known j d at_j in
      let differs : (j : ℕ) (d : Child) → get_elem? cs j ≡ some d → j ≢ i → d.pid ≢ c'.pid =
        λ j d at_j ne. (next.others d.pid (still_used j d at_j) (other_pid j d at_j ne)).0 in
      record {
        marks = λ j d at_j. elim (set_cases cs i j c c' d at_i at_j) [
          | inl (here, e) ↦ rw (e) next.marked
          | inr (there, at_cs) ↦
              let apart = other_pid j d at_cs there in
              m.marks j d at_cs
              ∙ sym ((next.others d.pid (still_used j d at_cs) apart).1 ∙ running_same d.pid apart)
        ];
        known = λ j d at_j. elim (set_cases cs i j c c' d at_i at_j) [
          | inl (here, e) ↦ rw (e) next.used_now
          | inr (there, at_cs) ↦
              (next.others d.pid (still_used j d at_cs) (other_pid j d at_cs there)).2
        ];
        apart = λ j d at_j k e at_k pids. elim (set_cases cs i j c c' d at_i at_j) [
          | inl (j_i, d_c) ↦ elim (set_cases cs i k c c' e at_i at_k) [
            | inl (k_i, e_c) ↦ k_i ∙ sym j_i
            | inr (k_there, at_cs) ↦
                absurd (differs k e at_cs k_there (pids ∙ ap (λ (x : Child). x.pid) d_c))
          ]
          | inr (j_there, at_cs) ↦ elim (set_cases cs i k c c' e at_i at_k) [
            | inl (k_i, e_c) ↦
                absurd (differs j d at_cs j_there (sym pids ∙ ap (λ (x : Child). x.pid) e_c))
            | inr (k_there, at_cs') ↦ m.apart j d at_cs k e at_cs' pids
          ]
        ];
      }

  -- No record is for the pid that has ended.
  unknown-Marked :
      (cs : List Child) (v w : W) (pid : ℕ)
      → Marked os kernel cs v
      → After pid v w
      → ((j : ℕ) (d : Child) → get_elem? cs j ≡ some d → d.pid ≢ pid)
      → Marked os kernel cs w
  unknown-Marked cs v w pid m (gone, running_same, used_same) unknown = record {
    marks = λ j d at_j. m.marks j d at_j ∙ sym (running_same d.pid (unknown j d at_j));
    known = λ j d at_j. used_same d.pid ∙ m.known j d at_j;
    apart = m.apart;
  }

  Marked-Alone :
      (cs : List Child) (v : W)
      → Marked os kernel cs v
      → (j : ℕ) (d : Child) (pid : ℕ) → get_elem? cs j ≡ some d
      → d.pid ≡ pid
      → Alone j pid cs
  Marked-Alone cs v m j d pid at_j same k e at_k e_pid =
      m.apart j d at_j k e at_k (e_pid ∙ sym same)

  pub handle_last-Marked :
      (cs : List Child) (v w : W) (pid status : ℕ)
      → Marked os kernel cs v
      → After pid v w
      → let (end, u) = handle_last os (some (pid, status)) cs w in Marked os kernel end u
  unfolding handle_last handle_found handle_at
  handle_last-Marked cs v w pid status m after = elim (Option-cases (find_child pid cs 0 none)) [
    | inl nobody ↦ rw (nobody) (
        unknown-Marked cs v w pid m after (λ j d at_j same. absurd (
          cc (
            sym nobody
            ∙ find_child-Alone pid cs j 0 none d at_j same
                (Marked-Alone cs v m j d pid at_j same)))))
    | inr (k, found) ↦ elim (find_child-Found pid cs 0 k none found) [
      | inl e ↦ absurd (cc e)
      | inr (i, place, (c, at_i, same)) ↦
          let k_i : k ≡ i = omega arith in
          rw (found, k_i, at_i)
            (set-Marked cs v w _ i pid c _ m after at_i same (
              successor pid c _ w _ same
                ((after.2 pid) ∙ ap (λ q. kernel.used q v) (sym same) ∙ m.known i c at_i) after.0
                (handle_death_cases c status w)))
    ]
  ]
