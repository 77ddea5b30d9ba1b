-- ===== src/God/Examples/System.antt =====
-- god with a kernel that numbers its processes, and the theorem on its whole run applied.
use tyndall.Base.{
  ℕ, suc, ◌==◌, ne→==, eq→==, sym, ap, subst, ℤ, ◌∙◌, ◌||◌, Bool, true, false, ltb, Option, none,
  some, Bytes, List, [], ◌∷◌, codes, get_elem?, pos, negsuc, ◌≡◌, ◌≢◌, refl, arith,
}
use tyndall.Ipc.Id.{id_prepare}
use tyndall.Ipc.Shmem.{DevShm}
use tyndall.Ipc.Shmem.Directory.{directory}
use tyndall.God.{
  god_children, Child, Processes, sigint, count_bypass, find_child, forked, fork_child,
  handle_death, handle_at, handle_found, handle_last, reap, child_handler, exit_handler, spawn_loop,
}
use tyndall.God.Reuse.{child_handler_reused}
use tyndall.God.Stop.{alive_pids}
use tyndall.God.System.{Kernel, Ends, Run, starts, ends}
use tyndall.God.System.Supervised.{exit_handler-Run}

-- The pids that run, those that have ended, the next pid, and /dev/shm.
abbrev Machine : Type 0
Machine = List ℕ × List (ℕ × ℕ) × ℕ × List Bytes

abbrev runs_in : List ℕ → ℕ → Bool
runs_in [] p = false
runs_in (q ∷ pids) p = q == p || runs_in pids p

abbrev reap_first : List ℕ → List (ℕ × ℕ) → ℕ → List Bytes → Option (ℕ × ℕ) × Machine
reap_first pids [] next shm = (none, (pids, [], next, shm))
reap_first pids (e ∷ ended) next shm = (some e, (pids, ended, next, shm))

abbrev machine : Processes Machine
machine = record {
  fork = λ argv (pids, ended, next, shm). (some next, (next ∷ pids, ended, suc next, shm));
  waitpid = λ (pids, ended, next, shm). reap_first pids ended next shm;
  kill = λ pid sig (pids, ended, next, shm). (runs_in pids pid, (pids, ended, next, shm));
}

-- /dev/shm of the machine.
abbrev machine_shm : DevShm Machine
machine_shm = record {
  exists = λ m (pids, ended, next, shm). directory.exists m shm;
  opendir = λ (pids, ended, next, shm). directory.opendir shm;
  shm_unlink = λ name (pids, ended, next, shm). (pids, ended, next, directory.shm_unlink name shm);
  unlinks = λ name m (pids, ended, next, shm). directory.unlinks name m shm;
  lists = λ (pids, ended, next, shm) entries m. directory.lists shm entries m;
}

abbrev runs_on : ℕ → Machine → Bool
runs_on p (pids, ended, next, shm) = runs_in pids p

abbrev used_on : ℕ → Machine → Bool
used_on p (pids, ended, next, shm) = ltb p next

abbrev fork_next : Machine → Machine
fork_next (pids, ended, next, shm) = (next ∷ pids, ended, suc next, shm)

some_inj : {m n : ℕ} → some m ≡ some n → m ≡ n
some_inj e = cc

forks_next :
    (w w' : Machine) (pid : ℕ)
    → machine.fork [] w ≡ (some pid, w')
    → (w.2 ≡ pid) × (fork_next w ≡ w')
forks_next w w' pid e = (some_inj (ap (λ r. r.0) e), ap (λ r. r.1) e)

Fresh : Machine → ℕ → Machine → Type 0
Fresh w pid w' = (used_on pid w ≡ false) × (runs_on pid w' ≡ true) × (used_on pid w' ≡ true)

fork_Fresh : (w : Machine) → Fresh w w.2 (fork_next w)
unfolding Fresh
fork_Fresh (pids, ended, next, shm) = (ground arith, rw (eq→== next next refl) refl, ground arith)

Others : Machine → Machine → ℕ → Type 0
Others w w' p = (runs_on p w' ≡ runs_on p w) × (used_on p w' ≡ used_on p w)

fork_Others : (w : Machine) (p : ℕ) → p ≢ w.2 → Others w (fork_next w) p
unfolding Others
fork_Others (pids, ended, next, shm) p ne = (rw (ne→== next p (λ e. ne (sym e))) refl, ground arith)

reap_Others :
    (pids : List ℕ) (ended : List (ℕ × ℕ)) (next : ℕ) (shm : List Bytes) (p : ℕ)
    → Others (pids, ended, next, shm) (reap_first pids ended next shm).1 p
unfolding Others
reap_Others pids [] next shm p = (refl, refl)
reap_Others pids (e ∷ ended) next shm p = (refl, refl)

machine-Kernel : Kernel machine
unfolding Fresh Others
machine-Kernel = record {
  running = runs_on;
  used = used_on;
  fork_starts = λ argv w w' pid e.
      let (next, behind) = forks_next w w' pid e in
      subst (λ q. Fresh w q w') next (subst (Fresh w w.2) behind (fork_Fresh w));
  fork_others = λ argv w w' pid p e ne.
      let (next, behind) = forks_next w w' pid e in
      subst (λ v. Others w v p) behind (fork_Others w p (λ q. ne (q ∙ next)));
  fork_fails = λ argv w w' p e. absurd (none_forks (ap (λ r. r.0) e));
  waitpid_keeps = λ (pids, ended, next, shm) p. reap_Others pids ended next shm p;
  kill_reaches = λ p sig w h. h;
  kill_others = λ p q sig w ne. refl;
}
  where
    none_forks : {n : ℕ} → some n ≢ none
    none_forks e = cc

abbrev writer : (respawn : ℤ) (pid : ℕ) → Child
writer n p = record {
  name = codes "tyndall_ex_ipc_writer";
  args = none ∷ none ∷ none ∷ none ∷ none ∷ none ∷ none ∷ none ∷ none ∷ none ∷ [];
  respawn = n;
  pid = p;
  alive = true;
}

abbrev reader : (pid : ℕ) (alive : Bool) → Child
reader p lives = record {
  name = codes "tyndall_ex_ipc_reader";
  args =
      some (codes "--my_option")
      ∷ some (codes "--my_other_option")
      ∷ none
      ∷ none
      ∷ none
      ∷ none
      ∷ none
      ∷ none
      ∷ none
      ∷ none
      ∷ [];
  respawn = pos 0;
  pid = p;
  alive = lives;
}

-- The writer has been started a second time, and the reader has ended and is not started again.
abbrev supervised : List Child
supervised = writer (negsuc 1) 22 ∷ reader 21 false ∷ []

machine-Ends :
    (pids after : List ℕ) (pid status next : ℕ) (shm : List Bytes)
    → runs_in pids pid ≡ true
    → runs_in after pid ≡ false
    → ((p : ℕ) → p ≢ pid → runs_in after p ≡ runs_in pids p)
    → Ends machine machine-Kernel pid (pids, [], next, shm) (after, (pid, status) ∷ [], next, shm)
unfolding machine-Kernel
machine-Ends pids after pid status next shm ran ended others = record {
  ran = ran;
  ended = ended;
  others = others;
  keeps = λ p. refl;
}

abbrev started : List Child × Machine
started = (writer (negsuc 0) 20 ∷ reader 21 true ∷ [], (21 ∷ 20 ∷ [], [], 22, []))

two_end : Run machine machine-Kernel started.0 started.1 supervised (22 ∷ [], [], 23, [])
unfolding child_handler reap handle_last find_child handle_found handle_at handle_death count_bypass
    fork_child forked
two_end =
    ends
      (ends starts 20 11 (21 ∷ [], (20, 11) ∷ [], 22, []) (21 ∷ [], [], 22, [])
        (22 ∷ 21 ∷ [], [], 23, []) (writer (negsuc 1) 22 ∷ reader 21 true ∷ [])
        (machine-Ends (21 ∷ 20 ∷ []) (21 ∷ []) 20 11 22 [] refl refl
          (λ p ne. rw (ne→== 20 p (λ e. ne (sym e))) refl))
        (_, refl, refl) refl)
      21 0 (22 ∷ [], (21, 0) ∷ [], 23, []) (22 ∷ [], [], 23, []) (22 ∷ [], [], 23, []) supervised
      (machine-Ends (22 ∷ 21 ∷ []) (22 ∷ []) 21 0 23 [] refl refl
        (λ p ne. rw (ne→== 21 p (λ e. ne (sym e))) refl))
      (_, refl, refl) refl

exit_handler-Run_example :
    let (status, pids, behind) =
      exit_handler machine true machine_shm sigint supervised (22 ∷ [], [], 23, []) in
    ((i : ℕ) (c : Child) → get_elem? supervised i ≡ some c → c.alive ≡ runs_in (22 ∷ []) c.pid)
    × (pids ≡ alive_pids supervised)
    × (status ≡ sigint)
    × (machine_shm.exists (id_prepare true (codes "a")) behind ≡ false)
unfolding spawn_loop fork_child forked machine-Kernel directory
exit_handler-Run_example =
    exit_handler-Run machine machine-Kernel machine_shm sigint god_children supervised
      ([], [], 20, []) (22 ∷ [], [], 23, []) true (codes "a") (λ argv w. (_, _, refl)) two_end
      (λ v. (_, refl))

-- The writer has been given the pid of the reader, which has ended.
child_handler_reused_example :
    let cs = writer (negsuc 0) 21 ∷ reader 21 false ∷ [] in
    (children' : List Child) × (behind : Machine) × (child_handler machine 2 cs
        ([], (21, 11) ∷ [], 22, [])
      ≡ some (children', behind))
    × (get_elem? children' 0 ≡ some (writer (negsuc 0) 21))
child_handler_reused_example =
    child_handler_reused machine 0 1 11 (writer (negsuc 0) 21) (reader 21 false)
      (writer (negsuc 0) 21 ∷ reader 21 false ∷ []) ([], (21, 11) ∷ [], 22, []) ([], [], 22, [])
      (omega arith) refl refl refl (_, refl, refl)
