-- ===== src/God/System/Supervised.antt =====
-- god from the start of its children to its end, over any ends of them that are handled one by one.
use tyndall.Base.{
  false, Bool, Bytes, subst, ◌∙◌, ap, sym, ℕ, zero, suc, arith, true, Bool-cases, inl, inr, some,
  List, [], ◌∷◌, get_elem?, ◌≡◌, ◌≢◌, refl,
}
use tyndall.Debug.{evaluated}
use tyndall.Ipc.Id.{id_prepare}
use tyndall.Ipc.Shmem.{DevShm}
use tyndall.Ipc.Shmem.Cleanup.{ipc_cleanup-id_prepare}
use tyndall.God.{
  Child, Processes, child_argv, forked, fork_child, kill_loop, exit_handler, spawn_loop,
}
use tyndall.God.Reaping.{Reaps, child_handler-Reaps, child_inj}
use tyndall.God.Respawn.{Alone, Forks}
use tyndall.God.Stop.{alive_pids}
use tyndall.God.System.{Kernel, Ends, Run, Marked, starts, ends}
use tyndall.God.System.Marks.{After, handle_last-Marked}

module _ {ℓ} {W : Type ℓ} (os : Processes W) (kernel : Kernel os) where
  result_inj : {p q : List Child × W} → some p ≡ some q → p ≡ q
  result_inj e = cc

  ended_After :
      (pid status : ℕ) (v v' v'' : W)
      → Ends os kernel pid v v'
      → Reaps os v' ((pid, status) ∷ []) v''
      → After os kernel pid v v''
  ended_After pid status v v' v'' e (between, first, last) =
      let same : (p : ℕ)
          → (kernel.running p v'' ≡ kernel.running p v') × (kernel.used p v'' ≡ kernel.used p v') =
        λ p. (
          ap (λ r. kernel.running p r.1) (sym last)
              ∙ (kernel.waitpid_keeps between p).0
              ∙ ap (λ r. kernel.running p r.1) (sym first)
              ∙ (kernel.waitpid_keeps v' p).0,
          ap (λ r. kernel.used p r.1) (sym last)
              ∙ (kernel.waitpid_keeps between p).1
              ∙ ap (λ r. kernel.used p r.1) (sym first)
              ∙ (kernel.waitpid_keeps v' p).1,
        ) in
      ((same pid).0 ∙ e.ended, λ p ne. (same p).0 ∙ e.others p ne, λ p. (same p).1 ∙ e.keeps p)

  pub Run-Marked :
      (children end : List Child) (w u : W)
      → Run os kernel children w end u
      → Marked os kernel children w
      → Marked os kernel end u
  Run-Marked children end w u starts m = m
  Run-Marked children end w u
        (ends {behind = behind} {v = v} run pid status v' v'' _ _ e reaps handles) m =
      let before = Run-Marked children behind w v run m in
      let last =
        handle_last-Marked os kernel behind v v'' pid status before
          (ended_After pid status v v' v'' e reaps) in
      subst (λ r. Marked os kernel r.0 r.1)
        (result_inj
          (sym (child_handler-Reaps os ((pid, status) ∷ []) behind v' v'' reaps) ∙ handles))
        last

  -- What a start of the children leaves as it was, for a pid that was in use.
  abbrev Apart : ℕ → List Child → W → W → Type 0
  Apart p started w w' =
      (kernel.running p w' ≡ kernel.running p w)
      × (kernel.used p w' ≡ true)
      × ((i : ℕ) (c : Child) → get_elem? started i ≡ some c → c.pid ≢ p)

  at_head_or :
      (c : Child) (cs : List Child) (P : Child → Type 0)
      → P c
      → ((k : ℕ) (e : Child) → get_elem? cs k ≡ some e → P e)
      → (i : ℕ) (d : Child) → get_elem? (c ∷ cs) i ≡ some d
      → P d
  at_head_or c cs P head tail zero d at_i = subst P (child_inj at_i) head
  at_head_or c cs P head tail (suc i) d at_i = tail i d at_i

  cons-Alone :
      (c : Child) (cs : List Child)
      → ((i : ℕ) (d : Child) → get_elem? cs i ≡ some d → d.pid ≢ c.pid)
      → ((i : ℕ) (d : Child) → get_elem? cs i ≡ some d → Alone i d.pid cs)
      → (i : ℕ) (d : Child) → get_elem? (c ∷ cs) i ≡ some d
      → Alone i d.pid (c ∷ cs)
  cons-Alone c cs others apart zero d at_i zero e at_j same = refl
  cons-Alone c cs others apart zero d at_i (suc j) e at_j same =
      absurd (others j e at_j (same ∙ ap (λ (x : Child). x.pid) (sym (child_inj at_i))))
  cons-Alone c cs others apart (suc i) d at_i zero e at_j same =
      absurd (others i d at_i (sym same ∙ ap (λ (x : Child). x.pid) (sym (child_inj at_j))))
  cons-Alone c cs others apart (suc i) d at_i (suc j) e at_j same =
      ap suc (apart i d at_i j e at_j same)

  cons-Marked :
      (c : Child) (cs : List Child) (w : W)
      → Marked os kernel cs w
      → c.alive ≡ kernel.running c.pid w
      → kernel.used c.pid w ≡ true
      → ((i : ℕ) (d : Child) → get_elem? cs i ≡ some d → d.pid ≢ c.pid)
      → Marked os kernel (c ∷ cs) w
  cons-Marked c cs w m marked used others = record {
    marks = at_head_or c cs (λ e. e.alive ≡ kernel.running e.pid w) marked m.marks;
    known = at_head_or c cs (λ e. kernel.used e.pid w ≡ true) used m.known;
    apart = cons-Alone c cs others m.apart;
  }

  abbrev pub StartedFrom : W → List Child × W → Type 0
  StartedFrom w r =
      Marked os kernel r.0 r.1 × ((p : ℕ) → kernel.used p w ≡ true → Apart p r.0 w r.1)

  abbrev forked_child : Child → ℕ → Child
  forked_child c pid = record c { pid = pid; alive = true }

  spawn_loop-fork :
      (c : Child) (children : List Child) (w w1 : W) (pid : ℕ)
      → os.fork (child_argv c) w ≡ (some pid, w1)
      → spawn_loop os (c ∷ children) w
        ≡ (forked_child c pid ∷ (spawn_loop os children w1).0, (spawn_loop os children w1).1)
  unfolding spawn_loop fork_child forked
  spawn_loop-fork c children w w1 pid forks_to = rw (forks_to) refl

  spawn_loop-Marked :
      (children : List Child) (w : W) → Forks os → StartedFrom w (spawn_loop os children w)
  unfolding spawn_loop
  spawn_loop-Marked [] w forks = (
    record {
      marks = λ i c at_i. absurd (cc at_i);
      known = λ i c at_i. absurd (cc at_i);
      apart = λ i c at_i. absurd (cc at_i);
    },
    λ p used. (refl, used, λ i c at_i. absurd (cc at_i)),
  )
  spawn_loop-Marked (c ∷ children) w forks =
      let (pid, w1, forks_to) = forks (child_argv c) w in
      let (fresh, runs, used) = kernel.fork_starts (child_argv c) w w1 pid forks_to in
      let c' = forked_child c pid in
      let (started, w') = spawn_loop os children w1 in
      let (m, keeps) = spawn_loop-Marked children w1 forks in
      let (still_runs, still_used, others) = keeps pid used in
      subst (StartedFrom w) (sym (spawn_loop-fork c children w w1 pid forks_to)) (
        cons-Marked c' started w' m (sym (still_runs ∙ runs)) still_used others,
        λ p was_used.
            let differs : p ≢ pid = λ e. absurd (
              let was : kernel.used pid w ≡ true = ap (λ q. kernel.used q w) (sym e) ∙ was_used in
              cc (sym fresh ∙ was)) in
            let (same_runs, same_used) =
              kernel.fork_others (child_argv c) w w1 pid p forks_to differs in
            let (runs_on, used_on, others_p) = keeps p (same_used ∙ was_used) in
            (
              runs_on ∙ same_runs,
              used_on,
              at_head_or c' started (λ e. e.pid ≢ p) (λ e. differs (sym e)) others_p,
            ),
      )

  kill_loop-running :
      (sig : ℕ) (cs : List Child) (w : W)
      → ((i : ℕ) (c : Child)
          → get_elem? cs i ≡ some c
          → c.alive ≡ true
          → kernel.running c.pid w ≡ true)
      → ((i : ℕ) (c : Child) → get_elem? cs i ≡ some c → Alone i c.pid cs)
      → ((kill_loop os true sig cs w).0 ≡ true) × ((kill_loop os true sig cs w).1 ≡ alive_pids cs)
  unfolding kill_loop evaluated
  kill_loop-running sig [] w runs apart = (refl, refl)
  kill_loop-running sig (c ∷ cs) w runs apart =
      let apart_in : (i : ℕ) (d : Child) → get_elem? cs i ≡ some d → Alone i d.pid cs =
        λ i d at_i j e at_j same. omega (arith, apart (suc i) d at_i (suc j) e at_j same) in
      elim (Bool-cases c.alive) [
        | inl lives ↦
            let killed = (os.kill c.pid sig w).1 in
            let succeeds : (os.kill c.pid sig w).0 ≡ true =
              kernel.kill_reaches c.pid sig w (runs 0 c refl lives) in
            let (ended, pids) =
              kill_loop-running sig cs killed
                (λ i d at_i d_lives.
                  kernel.kill_others c.pid d.pid sig w
                    (λ e. absurd (omega (arith, apart 0 c refl (suc i) d at_i e)))
                  ∙ runs (suc i) d at_i d_lives)
                apart_in in
            rw (lives, succeeds, ended, pids) (refl, refl)
        | inr dead ↦
            rw (dead) (kill_loop-running sig cs w (λ i d at_i. runs (suc i) d at_i) apart_in)
      ]

  -- With DEBUG, by the laws Kernel of the processes, where no pid is given out again: god starts
  -- its children, each `fork` succeeding; then any of them end, one after the other, and the
  -- handler of SIGCHLD runs behind each end and respawns what it respawns; then a signal comes. At
  -- that time exactly those children are marked alive whose processes run. god signals these, in
  -- their order, and no other, ends with the signal as its status, and leaves no topic, if /dev/shm
  -- can be read.
  pub exit_handler-Run :
      (dev : DevShm W) (sig : ℕ) (children end : List Child) (w u : W) (signed : Bool) (id : Bytes)
      → Forks os
      → Run os kernel (spawn_loop os children w).0 (spawn_loop os children w).1 end u
      → ((v : W) → (entries : List Bytes) × (dev.opendir v ≡ some entries))
      → let (status, pids, behind) = exit_handler os true dev sig end u in
        ((i : ℕ) (c : Child) → get_elem? end i ≡ some c → c.alive ≡ kernel.running c.pid u)
        × (pids ≡ alive_pids end)
        × (status ≡ sig)
        × (dev.exists (id_prepare signed id) behind ≡ false)
  unfolding exit_handler
  exit_handler-Run dev sig children end w u signed id forks run readable =
      let (started, w') = spawn_loop os children w in
      let m = Run-Marked started end w' u run (spawn_loop-Marked children w forks).0 in
      let (ended, pids) =
        kill_loop-running sig end u (λ i c at_i lives. sym (m.marks i c at_i) ∙ lives) m.apart in
      let behind = (kill_loop os true sig end u).2 in
      let (entries, opened) = readable behind in
      (
        m.marks,
        rw (ended) pids,
        rw (ended) refl,
        rw (ended) (ipc_cleanup-id_prepare dev behind entries signed id opened),
      )
