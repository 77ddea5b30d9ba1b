-- ===== src/God/Examples.antt =====
-- god.cpp with concrete children, and the theorems applied.
mod System
use tyndall.Base.{
  ℕ, suc, zero, ◌≤◌, ◌==◌, true, false, leb, if◌then◌else◌, Option, none, some, Bytes, List, [],
  ◌∷◌, codes, get_elem?, ℤ, pos, negsuc, ◌≡◌, refl, arith,
}
use mathlib.Core.List.{map}
use tyndall.Ipc.Id.{id_prepare}
use tyndall.Ipc.Shmem.{DevShm, ipc_cleanup}
use tyndall.Ipc.Shmem.Directory.{directory}
use tyndall.God.{
  Child, Processes, sigint, count_bypass, find_child, forked, fork_child, handle_death, handle_at,
  handle_found, handle_last, reap, child_handler, exit_handler, spawn_loop,
}
use tyndall.God.Reaping.{child_handler_others}
use tyndall.God.Respawn.{Deaths, none_dies, dies, Deaths-respawn, Deaths-infinite}
use tyndall.God.Release.{exit_handler_unchecked}
use tyndall.God.Stop.{
  alive_pids, exit_handler-alive_pids, exit_handler-child_handler, alive_pids-spawn_loop,
}

abbrev no_args : List (Option Bytes)
no_args = none ∷ none ∷ none ∷ none ∷ none ∷ none ∷ none ∷ none ∷ none ∷ none ∷ []

abbrev writer : (respawn : ℤ) (pid : ℕ) → Child
writer n p = record {
  name = codes "tyndall_ex_ipc_writer";
  args = no_args;
  respawn = n;
  pid = p;
  alive = true;
}

abbrev reader : Child
reader = record {
  name = codes "tyndall_ex_ipc_reader";
  args = some (codes "--my_option") ∷ some (codes "--my_other_option") ∷ no_args;
  respawn = pos 0;
  pid = 11;
  alive = true;
}

-- A world is the processes that have ended, and the next pid. The process 10 is gone.
abbrev World : Type 0
World = List (ℕ × ℕ) × ℕ

abbrev take_ended : List (ℕ × ℕ) → ℕ → Option (ℕ × ℕ) × World
take_ended [] next = (none, ([], next))
take_ended (e ∷ ended) next = (some e, (ended, next))

abbrev processes : Processes World
processes = record {
  fork = λ argv w. (some w.1, (w.0, suc w.1));
  waitpid = λ w. take_ended w.0 w.1;
  kill = λ pid sig w. (if pid == 10 then false else true, w);
}

abbrev children : List Child
children = writer (negsuc 0) 10 ∷ reader ∷ []

-- Both children have ended.
child_handler_others_test :
    (children' : List Child) × (behind : World) × (child_handler processes 3 children
        ((10, 11) ∷ (11, 9) ∷ [], 20)
      ≡ some (children', behind))
    × (get_elem? children' 0 ≡ some (writer (negsuc 0) 10))
child_handler_others_test =
    child_handler_others processes ((10, 11) ∷ []) 11 9 0 (writer (negsuc 0) 10) children
      ((10, 11) ∷ (11, 9) ∷ [], 20) ([], 20) ((_, refl, (_, refl, refl))) refl (omega arith)

alone : (c : Child) (j : ℕ) (d : Child) → get_elem? (c ∷ []) j ≡ some d → d.pid ≡ c.pid → j ≡ 0
alone c zero d at_j same = refl
alone c (suc j) d at_j same = absurd (cc at_j)

-- The writer is started once more, and ends again.
died_twice :
    Deaths processes 0
      (writer (pos 1) 10 ∷ [])
      (11 ∷ 11 ∷ [])
      (record (writer (pos 0) 20) { alive = false } ∷ [])
unfolding child_handler reap handle_last find_child handle_found handle_at handle_death count_bypass
    fork_child forked
died_twice =
    dies (writer (pos 1) 10) ((10, 11) ∷ [], 20) ([], 20) ([], 21) refl refl
      (alone (writer (pos 1) 10)) (_, refl, refl) refl
      (dies (writer (pos 0) 20) ((20, 11) ∷ [], 21) ([], 21) ([], 21) refl refl
        (alone (writer (pos 0) 20)) (_, refl, refl) refl none_dies)

Deaths-respawn_example :
    (c' : Child) × (get_elem? (record (writer (pos 0) 20) { alive = false } ∷ []) 0 ≡ some c')
    × (2 ≤ 2)
    × (c'.alive ≡ leb 2 1)
    × (c'.respawn ≡ pos 0)
Deaths-respawn_example =
    Deaths-respawn processes 0 1 (writer (pos 1) 10) (writer (pos 1) 10 ∷ [])
      (record (writer (pos 0) 20) { alive = false } ∷ []) (11 ∷ 11 ∷ []) (λ argv w. (_, _, refl))
      died_twice ((omega arith, omega arith), ((omega arith, omega arith), tt)) refl refl refl

died_once : Deaths processes 0 (writer (negsuc 0) 10 ∷ []) (11 ∷ []) (writer (negsuc 1) 20 ∷ [])
unfolding child_handler reap handle_last find_child handle_found handle_at handle_death count_bypass
    fork_child forked
died_once =
    dies (writer (negsuc 0) 10) ((10, 11) ∷ [], 20) ([], 20) ([], 21) refl refl
      (alone (writer (negsuc 0) 10)) (_, refl, refl) refl none_dies

Deaths-infinite_test :
    (c' : Child) × (get_elem? (writer (negsuc 1) 20 ∷ []) 0 ≡ some c')
    × (c'.alive ≡ true)
    × (c'.respawn ≡ negsuc 1)
Deaths-infinite_test =
    Deaths-infinite processes 0 0 (writer (negsuc 0) 10) (writer (negsuc 0) 10 ∷ [])
      (writer (negsuc 1) 20 ∷ []) (11 ∷ []) (λ argv w. (_, _, refl)) died_once
      ((omega arith, omega arith), tt) refl refl refl (omega arith)

alive_pids-spawn_loop_test :
    let started = (spawn_loop processes children ([], 20)).0 in
    (alive_pids started ≡ map (λ c. c.pid) started)
    × (map (λ c. c.name) started ≡ map (λ c. c.name) children)
    × (map (λ c. c.respawn) started ≡ map (λ c. c.respawn) children)
alive_pids-spawn_loop_test =
    alive_pids-spawn_loop processes children ([], 20) (λ argv w. (_, _, refl))

-- Processes beside /dev/shm: no process has ended, and 10 is gone.
abbrev beside_shm : Processes (List Bytes)
beside_shm = record {
  fork = λ argv w. (some 20, w);
  waitpid = λ w. (none, w);
  kill = λ pid sig w. (if pid == 10 then false else true, w);
}

exit_handler-alive_pids_test :
    let (status, pids, behind) = exit_handler beside_shm true directory sigint (reader ∷ []) [] in
    (status ≡ sigint)
    × (pids ≡ alive_pids (reader ∷ []))
    × (directory.exists (id_prepare true (codes "a")) behind ≡ false)
unfolding directory
exit_handler-alive_pids_test =
    exit_handler-alive_pids beside_shm directory sigint (reader ∷ []) [] true (codes "a")
      ((λ lives v. refl), tt) (λ v. (v, refl))

exit_handler_unchecked_example :
    let (status, pids, behind) =
      exit_handler beside_shm false directory sigint (reader ∷ []) (codes "ipc_a" ∷ []) in
    (status ≡ sigint)
    × (pids ≡ [])
    × (behind ≡ (ipc_cleanup directory (codes "ipc_a" ∷ [])).1)
    × (directory.exists (id_prepare true (codes "a")) behind ≡ false)
unfolding directory
exit_handler_unchecked_example =
    exit_handler_unchecked beside_shm directory sigint (reader ∷ []) (codes "ipc_a" ∷ []) true
      (codes "a") (codes "ipc_a" ∷ []) refl

-- Both: what the processes do, and /dev/shm.
abbrev both : DevShm (World × List Bytes)
both = record {
  exists = λ m w. directory.exists m w.1;
  opendir = λ w. directory.opendir w.1;
  shm_unlink = λ name w. (w.0, directory.shm_unlink name w.1);
  unlinks = λ name m w. directory.unlinks name m w.1;
  lists = λ w entries m. directory.lists w.1 entries m;
}

abbrev processes_of_both : Processes (World × List Bytes)
processes_of_both = record {
  fork = λ argv w. (some w.0.1, ((w.0.0, suc w.0.1), w.1));
  waitpid = λ w. ((take_ended w.0.0 w.0.1).0, ((take_ended w.0.0 w.0.1).1, w.1));
  kill = λ pid sig w. (if pid == 10 then false else true, w);
}

abbrev topics : List Bytes
topics = codes "ipc_a" ∷ []

exit_handler-child_handler_example :
    (children' : List Child) × (behind : World × List Bytes) × (child_handler processes_of_both 3
        children
        (((10, 11) ∷ (11, 9) ∷ [], 20), topics)
      ≡ some (children', behind))
    × ((exit_handler processes_of_both true both sigint children' (([], 20), topics)).0 ≡ 1)
    × (both.exists
          (codes "ipc_a")
          (exit_handler processes_of_both true both sigint children' (([], 20), topics)).2
        ≡ both.exists (codes "ipc_a") (([], 20), topics))
exit_handler-child_handler_example =
    exit_handler-child_handler processes_of_both both sigint ((10, 11) ∷ []) 11 9 0
      (writer (negsuc 0) 10) children (((10, 11) ∷ (11, 9) ∷ [], 20), topics) (([], 20), topics)
      (([], 20), topics) (codes "ipc_a") ((_, refl, (_, refl, refl))) refl (omega arith) refl
      (λ v. refl) (λ pid v. refl)
