-- ===== src/Ipc/Shmem/Create/Posix.antt =====
-- What POSIX documents of the calls that `shmem_create` makes.
use tyndall.Base.{ℕ, true, Option, some, Bytes, ◌≡◌, ◌≢◌}
use tyndall.Ipc.Shmem.Create.{map_failed, ShmCalls}

-- `names fd` is the shared memory behind an open descriptor, `size_of` how large a memory is, and
-- `mapping` what is mapped at an address, and how much of it.
pub record Posix {ℓ} {W : Type ℓ} (os : ShmCalls W) : Type ℓ where
  pub names : ℕ → W → Option Bytes
  pub size_of : Bytes → W → ℕ
  pub mapping : ℕ → W → Option (Bytes × ℕ)
  -- A new descriptor is for the memory of that name.
  pub opens :
      (id : Bytes) (fd : ℕ) (w w' : W) → os.shm_open id w ≡ (some fd, w') → names fd w' ≡ some id
  -- Neither call closes a descriptor.
  pub truncate_keeps :
      (fd size other : ℕ) (w : W) → names other (os.ftruncate fd size w).1 ≡ names other w
  pub mmap_keeps : (size fd other : ℕ) (w : W) → names other (os.mmap size fd w).1 ≡ names other w
  -- `ftruncate` sets the size.
  pub truncates :
      (fd size : ℕ) (id : Bytes) (w w' : W)
      → names fd w ≡ some id
      → os.ftruncate fd size w ≡ (true, w')
      → size_of id w' ≡ size
  -- `mmap` maps the memory of the descriptor, and changes no memory's size.
  pub maps :
      (size fd address : ℕ) (id : Bytes) (w w' : W)
      → names fd w ≡ some id
      → os.mmap size fd w ≡ (address, w')
      → address ≢ map_failed
      → mapping address w' ≡ some (id, size)
  pub mmap_resizes :
      (size fd : ℕ) (id : Bytes) (w : W) → size_of id (os.mmap size fd w).1 ≡ size_of id w
