-- ===== src/God/Stop.antt =====
-- What `exit_handler` stops and removes, and what it leaves.
use tyndall.Base.{
  ◌∙◌, ap, ℕ, zero, suc, Bool, true, false, Bool-cases, inl, inr, some, Bytes, List, [], ◌∷◌, ◌++◌,
  length, get_elem?, All, ℤ, if◌then◌else◌, ◌≡◌, ◌≢◌, refl,
}
use tyndall.Debug.{evaluated}
use tyndall.Ipc.Id.{id_prepare}
use tyndall.Ipc.Shmem.{DevShm}
use tyndall.Ipc.Shmem.Cleanup.{ipc_cleanup-id_prepare}
use mathlib.Core.List.{map}
use tyndall.God.{
  Child, Processes, child_argv, forked, fork_child, child_handler, kill_loop, exit_handler,
  spawn_loop,
}
use tyndall.God.Respawn.{Forks}
use tyndall.God.Reaping.{Reaps, child_inj, child_handler_others}

abbrev pub alive_pids : List Child → List ℕ
alive_pids [] = []
alive_pids (c ∷ children) =
    let others = alive_pids children in if c.alive then c.pid ∷ others else others

module _ {ℓ} {W : Type ℓ} (os : Processes W) (dev : DevShm W) (sig : ℕ) where
  kill_loop-alive_pids :
      (children : List Child) (w : W)
      → All (λ c. c.alive ≡ true → (v : W) → (os.kill c.pid sig v).0 ≡ true) children
      → ((kill_loop os true sig children w).0 ≡ true)
        × ((kill_loop os true sig children w).1 ≡ alive_pids children)
  unfolding kill_loop evaluated
  kill_loop-alive_pids [] w _ = (refl, refl)
  kill_loop-alive_pids (c ∷ children) w (reached, more) = elim (Bool-cases c.alive) [
    | inl lives ↦
        let succeeds : (os.kill c.pid sig w).0 ≡ true = reached lives w in
        let (ended, pids) = kill_loop-alive_pids children (os.kill c.pid sig w).1 more in
        rw (lives, succeeds, ended, pids) (refl, refl)
    | inr dead ↦ rw (dead) (kill_loop-alive_pids children w more)
  ]

  -- With DEBUG: if every child that is marked alive can be signalled, and /dev/shm can be read, then god signals
  -- exactly these children, in their order, ends with the signal as its status, and leaves no topic.
  pub exit_handler-alive_pids :
      (children : List Child) (w : W) (signed : Bool) (id : Bytes)
      → All (λ c. c.alive ≡ true → (v : W) → (os.kill c.pid sig v).0 ≡ true) children
      → ((v : W) → (entries : List Bytes) × (dev.opendir v ≡ some entries))
      → let (status, pids, behind) = exit_handler os true dev sig children w in
        (status ≡ sig)
        × (pids ≡ alive_pids children)
        × (dev.exists (id_prepare signed id) behind ≡ false)
  unfolding exit_handler
  exit_handler-alive_pids children w signed id reached readable =
      let (ended, pids) = kill_loop-alive_pids children w reached in
      let (entries, opened) = readable (kill_loop os true sig children w).2 in
      rw (ended) (
        refl,
        pids,
        ipc_cleanup-id_prepare dev (kill_loop os true sig children w).2 entries signed id opened,
      )

  kill_loop_fails :
      (children : List Child) (j : ℕ) (d : Child) (w : W)
      → get_elem? children j ≡ some d
      → d.alive ≡ true
      → ((v : W) → (os.kill d.pid sig v).0 ≡ false)
      → (kill_loop os true sig children w).0 ≡ false
  unfolding kill_loop evaluated
  kill_loop_fails [] j d w at_j lives gone = absurd (cc at_j)
  kill_loop_fails (c ∷ children) zero d w at_j lives gone =
      let same : c ≡ d = child_inj at_j in
      let c_lives : c.alive ≡ true = ap (λ (x : Child). x.alive) same ∙ lives in
      let fails : (os.kill c.pid sig w).0 ≡ false =
        ap (λ (x : Child). (os.kill x.pid sig w).0) same ∙ gone w in
      rw (c_lives, fails) refl
  kill_loop_fails (c ∷ children) (suc j) d w at_j lives gone = elim (Bool-cases c.alive) [
    | inl c_lives ↦ elim (Bool-cases (os.kill c.pid sig w).0) [
      | inl succeeds ↦
          rw (c_lives, succeeds)
            (kill_loop_fails children j d (os.kill c.pid sig w).1 at_j lives gone)
      | inr fails ↦ rw (c_lives, fails) refl
    ]
    | inr dead ↦ rw (dead) (kill_loop_fails children j d w at_j lives gone)
  ]

  kill_loop_keeps :
      (children : List Child) (w : W) (m : Bytes)
      → ((pid : ℕ) (v : W) → dev.exists m (os.kill pid sig v).1 ≡ dev.exists m v)
      → dev.exists m (kill_loop os true sig children w).2 ≡ dev.exists m w
  unfolding kill_loop evaluated
  kill_loop_keeps [] w m keeps = refl
  kill_loop_keeps (c ∷ children) w m keeps = elim (Bool-cases c.alive) [
    | inl c_lives ↦ elim (Bool-cases (os.kill c.pid sig w).0) [
      | inl succeeds ↦
          rw (c_lives, succeeds)
            (kill_loop_keeps children (os.kill c.pid sig w).1 m keeps ∙ keeps c.pid w)
      | inr fails ↦ rw (c_lives, fails) (keeps c.pid w)
    ]
    | inr dead ↦ rw (dead) (kill_loop_keeps children w m keeps)
  ]

  exit_handler_fails :
      (children : List Child) (j : ℕ) (d : Child) (w : W) (m : Bytes)
      → get_elem? children j ≡ some d
      → d.alive ≡ true
      → ((v : W) → (os.kill d.pid sig v).0 ≡ false)
      → ((pid : ℕ) (v : W) → dev.exists m (os.kill pid sig v).1 ≡ dev.exists m v)
      → ((exit_handler os true dev sig children w).0 ≡ 1)
        × (dev.exists m (exit_handler os true dev sig children w).2 ≡ dev.exists m w)
  unfolding exit_handler
  exit_handler_fails children j d w m at_j lives gone keeps =
      rw (kill_loop_fails children j d w at_j lives gone) (refl, kill_loop_keeps children w m keeps)

  -- With DEBUG: if a living child ends together with another one that `waitpid` gives last, so that one run of
  -- `child_handler` takes both, then a later signal to god finds it still marked alive: `kill` fails,
  -- since there is no such process any more, god ends with status 1, and no shared memory is removed.
  pub exit_handler-child_handler :
      (earlier : List (ℕ × ℕ)) (pid status j : ℕ) (d : Child) (children : List Child) (w w' v : W)
      (m : Bytes)
      → Reaps os w (earlier ++ ((pid, status) ∷ [])) w'
      → get_elem? children j ≡ some d
      → d.pid ≢ pid
      → d.alive ≡ true
      → ((v : W) → (os.kill d.pid sig v).0 ≡ false)
      → ((pid : ℕ) (v : W) → dev.exists m (os.kill pid sig v).1 ≡ dev.exists m v)
      → (children' : List Child) × (behind : W) × (child_handler os
            (suc (length (earlier ++ ((pid, status) ∷ []))))
            children
            w
          ≡ some (children', behind))
        × ((exit_handler os true dev sig children' v).0 ≡ 1)
        × (dev.exists m (exit_handler os true dev sig children' v).2 ≡ dev.exists m v)
  exit_handler-child_handler earlier pid status j d children w w' v m h at_j other lives gone
        keeps =
      let (children', behind, runs, at_j') =
        child_handler_others os earlier pid status j d children w w' h at_j other in
      let (one, kept) = exit_handler_fails children' j d v m at_j' lives gone keeps in
      (children', behind, runs, one, kept)

module _ {ℓ} {W : Type ℓ} (os : Processes W) where
  -- Behind `main`'s loop, where `fork` succeeds, every child is marked alive, so that a signal to god
  -- is meant for all of them, and they keep their names and the numbers of their respawns.
  pub alive_pids-spawn_loop :
      (children : List Child) (w : W)
      → Forks os
      → let started = (spawn_loop os children w).0 in
        (alive_pids started ≡ map (λ c. c.pid) started)
        × (map (λ c. c.name) started ≡ map (λ c. c.name) children)
        × (map (λ c. c.respawn) started ≡ map (λ c. c.respawn) children)
  unfolding spawn_loop fork_child forked
  alive_pids-spawn_loop [] w forks = (refl, refl, refl)
  alive_pids-spawn_loop (c ∷ children) w forks =
      let (pid, w', forks_to) = forks (child_argv c) w in
      let (alive, names, budgets) = alive_pids-spawn_loop children w' forks in
      rw (forks_to) (
        ap (λ (pids : List ℕ). pid ∷ pids) alive,
        ap (λ (ns : List Bytes). c.name ∷ ns) names,
        ap (λ (ns : List ℤ). c.respawn ∷ ns) budgets,
      )
