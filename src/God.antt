-- ===== src/God.antt =====
-- examples/ipc/god.cpp: the supervisor that starts programs, respawns them, and stops them. Where they
-- have no parameter for it, the functions are those of the build with DEBUG, which CMakeLists.txt makes.
pub mod Reaping
pub mod Respawn
pub mod Release
pub mod Reuse
pub mod Stop
pub mod System
mod Examples
use tyndall.Base.{
  ℕ, zero, suc, ◌+◌, ◌-◌, ◌^◌, Bool, true, false, not, if◌then◌else◌, ◌==◌, ltb, Option, none, some,
  bind, Bytes, List, [], ◌∷◌, ◌++◌, ℤ, pos, negsuc, codes, eq_ℤ, get_elem?, set,
}
use tyndall.Debug.{evaluated}
use tyndall.Ipc.Shmem.{DevShm, ipc_cleanup}

-- `child`. `args` has ten entries; `none` is NULL.
pub record Child : Type 0 where
  pub name : Bytes
  pub args : List (Option Bytes)
  pub respawn : ℤ
  pub pid : ℕ
  pub alive : Bool

abbrev pub no_arg : Option Bytes
no_arg = none

-- `children`, before they are started.
abbrev pub god_children : List Child
god_children =
    record {
      name = codes "tyndall_ex_ipc_writer";
      args =
          no_arg ∷ no_arg ∷ no_arg ∷ no_arg ∷ no_arg ∷ no_arg ∷ no_arg ∷ no_arg ∷ no_arg ∷ no_arg
          ∷ [];
      respawn = negsuc 0;
      pid = 0;
      alive = false;
    }
    ∷ record {
      name = codes "tyndall_ex_ipc_reader";
      args =
          some (codes "--my_option")
          ∷ some (codes "--my_other_option")
          ∷ no_arg
          ∷ no_arg
          ∷ no_arg
          ∷ no_arg
          ∷ no_arg
          ∷ no_arg
          ∷ no_arg
          ∷ no_arg
          ∷ [];
      respawn = pos 0;
      pid = 0;
      alive = false;
    }
    ∷ []

-- The system calls. `fork` is given what the new process executes, and gives its pid; `waitpid` gives a
-- process that has ended, with its status, if there is one; `kill` says whether it returned 0.
pub record Processes {ℓ} (W : Type ℓ) : Type ℓ where
  pub fork : (argv : List (Option Bytes)) → W → Option ℕ × W
  pub waitpid : W → Option (ℕ × ℕ) × W
  pub kill : (pid sig : ℕ) → W → Bool × W

abbrev pub sigint : ℕ
sigint = 2

abbrev pub respawn_bypass_statuses : List ℕ
respawn_bypass_statuses = 0 ∷ sigint ∷ []

-- `--` on an int.
abbrev pub decrement : ℤ → ℤ
decrement (pos zero) = negsuc 0
decrement (pos (suc n)) = pos n
decrement (negsuc n) = if n == 2 ^ 31 - 1 then pos (2 ^ 31 - 1) else negsuc (suc n)

-- The `argv` of the new process.
unfoldable pub child_argv : Child → List (Option Bytes)
child_argv c = some c.name ∷ (c.args ++ none ∷ [])

-- The loop that counts how many of the statuses equal `status`.
unfoldable pub count_bypass : ℕ → List ℕ → ℕ → ℕ
count_bypass status [] bypass_statuses = bypass_statuses
count_bypass status (s ∷ statuses) bypass_statuses =
    count_bypass status statuses (if status == s then suc bypass_statuses else bypass_statuses)

-- The loop that looks for `pid`: the last index that has it.
unfoldable pub find_child : ℕ → List Child → (i : ℕ) (child_index : Option ℕ) → Option ℕ
find_child pid [] i child_index = child_index
find_child pid (c ∷ children) i child_index =
    find_child pid children (suc i) (if c.pid == pid then some i else child_index)

module _ {ℓ} {W : Type ℓ} (os : Processes W) where
  -- Behind `fork`, in the parent.
  unfoldable pub forked : Child → Option ℕ × W → Child × W
  forked c (none, w) = (c, w)
  forked c (some pid, w) = (record c { pid = pid; alive = true }, w)

  unfoldable pub fork_child : Child → W → Child × W
  fork_child c w = forked c (os.fork (child_argv c) w)

  -- `child_handler` behind the search for the child.
  unfoldable pub handle_death : Child → (status : ℕ) → W → Child × W
  handle_death c status w =
      let dead = record c { alive = false } in
      if not (eq_ℤ c.respawn (pos 0))
      then (if ltb 0 (count_bypass status respawn_bypass_statuses 0)
          then (dead, w)
          else (let (c', w') = fork_child dead w in
              (record c' { respawn = decrement c'.respawn }, w')))
      else (dead, w)

  abbrev pub reaped :
      Option (ℕ × ℕ)
      → (ℕ × ℕ → W → Option (Option (ℕ × ℕ) × W))
      → Option (ℕ × ℕ) × W
      → Option (Option (ℕ × ℕ) × W)
  reaped last more (none, w) = some (last, w)
  reaped last more (some ended, w) = more ended w

  -- The loop of `waitpid`: the last process that it gave. `none` outside: it has not ended yet.
  unfoldable pub reap : (fuel : ℕ) → Option (ℕ × ℕ) → W → Option (Option (ℕ × ℕ) × W)
  reap zero last w = none
  reap (suc fuel) last w = reaped last (λ ended w'. reap fuel (some ended) w') (os.waitpid w)

  unfoldable pub handle_at : Option Child → (i status : ℕ) → List Child → W → List Child × W
  handle_at none i status children w = (children, w)
  handle_at (some c) i status children w =
      let (c', w') = handle_death c status w in (set children i c', w')

  -- `debug_assert` returns if no child has been found.
  unfoldable pub handle_found : Option ℕ → (status : ℕ) → List Child → W → List Child × W
  handle_found none status children w = (children, w)
  handle_found (some i) status children w = handle_at (get_elem? children i) i status children w

  -- No child has the pid -1.
  unfoldable pub handle_last : Option (ℕ × ℕ) → List Child → W → List Child × W
  handle_last none children w = (children, w)
  handle_last (some (pid, status)) children w =
      handle_found (find_child pid children 0 none) status children w

  unfoldable pub child_handler : (fuel : ℕ) → List Child → W → Option (List Child × W)
  child_handler fuel children w =
      bind (reap fuel none w) (λ (last, w'). some (handle_last last children w'))

  -- The loop of `exit_handler`: whether it reaches its end, and the pids that are signalled, in the
  -- build with DEBUG or without.
  unfoldable pub kill_loop : (defined : Bool) (sig : ℕ) → List Child → W → Bool × List ℕ × W
  kill_loop defined sig [] w = (true, [], w)
  kill_loop defined sig (c ∷ children) w =
      let (succeeds, killed) = evaluated defined (os.kill c.pid sig) w in
      let (ended, pids, w') = kill_loop defined sig children killed in
      let others = kill_loop defined sig children w in
      let signalled = if defined then c.pid ∷ [] else [] in
      if not c.alive
      then others
      else if succeeds
      then (ended, signalled ++ pids, w')
      else (false, signalled, killed)

  -- The exit status of god, the pids that it signals, and the world behind.
  unfoldable pub exit_handler :
      (defined : Bool) → DevShm W → (sig : ℕ) → List Child → W → ℕ × List ℕ × W
  exit_handler defined dev sig children w =
      let (ended, pids, w') = kill_loop defined sig children w in
      if ended then (sig, pids, (ipc_cleanup dev w').1) else (1, pids, w')

  -- `main`, up to the waiting.
  unfoldable pub spawn_loop : List Child → W → List Child × W
  spawn_loop [] w = ([], w)
  spawn_loop (c ∷ children) w =
      let (c', w') = fork_child c w in
      let (children', w'') = spawn_loop children w' in (c' ∷ children', w'')
