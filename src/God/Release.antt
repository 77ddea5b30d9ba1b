-- ===== src/God/Release.antt =====
-- `exit_handler` of god.cpp in a build without DEBUG, where `debug_assert` does not evaluate `kill`.
use tyndall.Base.{ℕ, Bool, true, false, Bool-cases, inl, inr, some, Bytes, List, [], ◌∷◌, ◌≡◌, refl}
use tyndall.Debug.{evaluated}
use tyndall.Ipc.Id.{id_prepare}
use tyndall.Ipc.Shmem.{DevShm, ipc_cleanup}
use tyndall.Ipc.Shmem.Cleanup.{ipc_cleanup-id_prepare}
use tyndall.God.{Child, Processes, kill_loop, exit_handler}

module _ {ℓ} {W : Type ℓ} (os : Processes W) (dev : DevShm W) (sig : ℕ) where
  kill_loop_unchecked :
      (children : List Child) (w : W) → kill_loop os false sig children w ≡ (true, [], w)
  unfolding kill_loop evaluated
  kill_loop_unchecked [] w = refl
  kill_loop_unchecked (c ∷ children) w = elim (Bool-cases c.alive) [
    | inl lives ↦ rw (lives, kill_loop_unchecked children w) refl
    | inr dead ↦ rw (dead) (kill_loop_unchecked children w)
  ]

  -- Without DEBUG god signals no child at all, whichever are alive: the processes it started run on.
  -- It still removes the topics, and ends with the signal as its status, if /dev/shm can be read.
  pub exit_handler_unchecked :
      (children : List Child) (w : W) (signed : Bool) (id : Bytes)
      → (entries : List Bytes) → dev.opendir w ≡ some entries
      → let (status, pids, behind) = exit_handler os false dev sig children w in
        (status ≡ sig)
        × (pids ≡ [])
        × (behind ≡ (ipc_cleanup dev w).1)
        × (dev.exists (id_prepare signed id) behind ≡ false)
  unfolding exit_handler
  exit_handler_unchecked children w signed id entries opened =
      rw (kill_loop_unchecked children w)
        (refl, refl, refl, ipc_cleanup-id_prepare dev w entries signed id opened)
