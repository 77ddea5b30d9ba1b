-- ===== src/Ipc/Shmem/Create.antt =====
-- tyndall/ipc/shmem.h: `shmem_create`, and the system calls that it makes.
pub mod Posix
pub mod Laws
use tyndall.Base.{
  ℕ, ◌-◌, ◌^◌, Bool, if◌then◌else◌, ◌==◌, not, Option, none, some, Bytes, ◌≡◌, ◌≢◌, true,
}

-- `MAP_FAILED`, which is (void*)-1.
abbrev pub map_failed : ℕ
map_failed = 2 ^ 64 - 1

-- The system calls on a world `W`. `shm_open` gives a descriptor or -1 (none), `ftruncate` says whether
-- it returned 0, and `mmap` gives an address or MAP_FAILED.
pub record ShmCalls {ℓ} (W : Type ℓ) : Type ℓ where
  pub shm_open : Bytes → W → Option ℕ × W
  pub ftruncate : (fd size : ℕ) → W → Bool × W
  pub mmap : (size fd : ℕ) → W → ℕ × W

-- `enum shmem_error`
abbrev pub shmem_shm_failed : ℕ
shmem_shm_failed = 1

abbrev pub shmem_truncate_failed : ℕ
shmem_truncate_failed = 2

abbrev pub shmem_map_failed : ℕ
shmem_map_failed = 3

module _ {ℓ} {W : Type ℓ} (os : ShmCalls W) where
  -- Behind `mmap`: the code, `*addr`, and the world.
  unfoldable pub after_mmap : ℕ × W → ℕ × ℕ × W
  after_mmap (address, w) = (if address == map_failed then shmem_map_failed else 0, address, w)

  -- Behind `ftruncate`; `addr` is what `*addr` held before.
  unfoldable pub after_truncate : (addr size fd : ℕ) → Bool × W → ℕ × ℕ × W
  after_truncate addr size fd (succeeded, w) =
      if not succeeded then (shmem_truncate_failed, addr, w) else after_mmap (os.mmap size fd w)

  unfoldable pub after_open : (addr size : ℕ) → Option ℕ × W → ℕ × ℕ × W
  after_open addr size (none, w) = (shmem_shm_failed, addr, w)
  after_open addr size (some fd, w) = after_truncate addr size fd (os.ftruncate fd size w)

  unfoldable pub shmem_create : (addr : ℕ) (id : Bytes) (size : ℕ) → W → ℕ × ℕ × W
  shmem_create addr id size w = after_open addr size (os.shm_open id w)
