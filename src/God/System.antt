-- ===== src/God/System.antt =====
-- god.cpp together with the processes that it supervises: they end one after the other, and
-- `child_handler` runs behind each end.
pub mod Marks
pub mod Supervised
use tyndall.Base.{
  ℕ, suc, Bool, true, false, Option, none, some, Bytes, List, [], ◌∷◌, get_elem?, ◌≡◌, ◌≢◌,
}
use tyndall.God.{Child, Processes, child_handler}
use tyndall.God.Reaping.{Reaps}
use tyndall.God.Respawn.{Alone}

-- What POSIX documents of the calls in `os`, by the processes that run, and the pids that have been given
-- out. That `fork` never gives a pid again is more than POSIX says; it holds until the pids are used up.
pub record Kernel {ℓ} {W : Type ℓ} (os : Processes W) : Type ℓ where
  pub running : ℕ → W → Bool
  pub used : ℕ → W → Bool
  pub fork_starts :
      (argv : List (Option Bytes)) (w w' : W) (pid : ℕ)
      → os.fork argv w ≡ (some pid, w')
      → (used pid w ≡ false) × (running pid w' ≡ true) × (used pid w' ≡ true)
  pub fork_others :
      (argv : List (Option Bytes)) (w w' : W) (pid p : ℕ)
      → os.fork argv w ≡ (some pid, w')
      → p ≢ pid
      → (running p w' ≡ running p w) × (used p w' ≡ used p w)
  pub fork_fails :
      (argv : List (Option Bytes)) (w w' : W) (p : ℕ)
      → os.fork argv w ≡ (none, w')
      → (running p w' ≡ running p w) × (used p w' ≡ used p w)
  pub waitpid_keeps :
      (w : W) (p : ℕ)
      → (running p (os.waitpid w).1 ≡ running p w) × (used p (os.waitpid w).1 ≡ used p w)
  pub kill_reaches : (p sig : ℕ) (w : W) → running p w ≡ true → (os.kill p sig w).0 ≡ true
  pub kill_others : (p q sig : ℕ) (w : W) → q ≢ p → running q (os.kill p sig w).1 ≡ running q w

module _ {ℓ} {W : Type ℓ} (os : Processes W) (kernel : Kernel os) where
  -- The process ends, and nothing else happens.
  pub record Ends (pid : ℕ) (w w' : W) : Type 0 where
    pub ran : kernel.running pid w ≡ true
    pub ended : kernel.running pid w' ≡ false
    pub others : (p : ℕ) → p ≢ pid → kernel.running p w' ≡ kernel.running p w
    pub keeps : (p : ℕ) → kernel.used p w' ≡ kernel.used p w

  -- Any processes end, each alone, with any status, and the handler of SIGCHLD runs behind each.
  pub data Run : List Child → W → List Child → W → Type ℓ where
    starts : {children : List Child} {w : W} → Run children w children w
    ends :
        {children behind : List Child} {w v : W}
        → Run children w behind v
        → (pid status : ℕ) (v' v'' u : W) (end : List Child) → Ends pid v v'
        → Reaps os v' ((pid, status) ∷ []) v''
        → child_handler os 2 behind v' ≡ some (end, u)
        → Run children w end u

  -- The marks tell the truth: a child is marked alive just if its process runs.
  pub record Marked (children : List Child) (w : W) : Type 0 where
    pub marks :
        (i : ℕ) (c : Child) → get_elem? children i ≡ some c → c.alive ≡ kernel.running c.pid w
    pub known : (i : ℕ) (c : Child) → get_elem? children i ≡ some c → kernel.used c.pid w ≡ true
    pub apart : (i : ℕ) (c : Child) → get_elem? children i ≡ some c → Alone i c.pid children
