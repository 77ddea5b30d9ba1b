-- ===== src/Ipc/Shmem/TypeCheck/Race.antt =====
-- The end of `init` in shmem.h by any number of processes at once: the exchange of the hash in the tailer
-- is one step, and the load in the assertion behind it is another.
use tyndall.Base.{ℕ, ◌==◌, if◌then◌else◌, ◌≡◌, ◌≢◌}
use tyndall.Ipc.Shmem.{smp_cmp_xch}
use tyndall.Ipc.SeqLock.Protocol.{update}

-- Where a process stands.
pub data Opener : Type 0 where
  before : Opener
  refused : Opener  -- smp_cmp_xch has returned -1
  passed : Opener
  aborted : Opener  -- the assertion has failed

-- The memory's words by their place, and the processes. The hash in the tailer is at `&data_structure() + 1`.
pub record Opening : Type 0 where
  pub th : ℕ → ℕ
  pub opener : ℕ → Opener

-- Fresh shared memory.
abbrev pub unopened : Opening
unopened = record { th = λ _. 0; opener = λ _. before }

-- `sizeof(DATA_STRUCTURE)`, which is the place of the tailer, and `type_hash`, by process.
module _ (sizeof_data type_hash : ℕ → ℕ) where
  pub data Step (s : Opening) : Opening → Type 0 where
    exchange :
        (i : ℕ)
        → s.opener i ≡ before
        → Step s (record s {
          th = update s.th (sizeof_data i) (smp_cmp_xch (s.th (sizeof_data i)) 0 (type_hash i)).0;
          opener =
              update s.opener i (
                if (smp_cmp_xch (s.th (sizeof_data i)) 0 (type_hash i)).1 then passed else refused);
        })
    compare :
        (i : ℕ)
        → s.opener i ≡ refused
        → Step s (record s {
          opener =
              update s.opener i (if s.th (sizeof_data i) == type_hash i then passed else aborted);
        })

  pub data Reach : Opening → Type 0 where
    start : Reach unopened
    later : {s t : Opening} → Reach s → Step s t → Reach t

  -- What the hash in the tailer is, for a process that stands there.
  abbrev Fits : ℕ → ℕ → Opener → Type 0
  Fits th hash before = th ≡ th
  Fits th hash refused = th ≢ 0
  Fits th hash passed = th ≡ hash
  Fits th hash aborted = (th ≢ 0) × (th ≢ hash)

  AllFit : Opening → Type 0
  AllFit s = (j : ℕ) → Fits (s.th (sizeof_data j)) (type_hash j) (s.opener j)
