-- ===== src/Ipc/Bus/Opens.antt =====
-- When `init` of shmem.h can open a memory: what is documented of the calls that it makes.
use tyndall.Base.{ap, sym, ◌∙◌, ℕ, suc, ◌*◌, ◌%◌, true, ne→==, some, Bytes, ◌≡◌, ◌≢◌, refl}
use native.Mathlib.Nat.{mul-mod_left, mul_assoc}
use tyndall.Ipc.Shmem.Create.{map_failed, shmem_create, after_open, after_truncate, after_mmap}
use tyndall.Ipc.Bus.{Platform, is_mapped}

-- `Usable` are the names that the system takes for a shared memory, and `Room n` the states of the system
-- in which it has what `n` more calls of `shmem_create` need: descriptors, memory, addresses.
pub record Opens {W : Type 0} (platform : Platform W) : Type 1 where
  pub Usable : Bytes → Type 0
  pub Room : ℕ → W → Type 0
  pub spared : (n : ℕ) (w : W) → Room (suc n) w → Room n w
  pub shm_open :
      (n : ℕ) (name : Bytes) (w : W)
      → Usable name
      → Room (suc n) w
      → (fd : ℕ) × (w' : W) × (platform.os.shm_open name w ≡ (some fd, w')) × Room n w'
  pub ftruncate :
      (n fd : ℕ) (w : W)
      → Room n w
      → (w' : W) × (platform.os.ftruncate fd platform.size w ≡ (true, w')) × Room n w'
  -- A mapping begins at a page.
  pub mmap :
      (n fd : ℕ) (w : W)
      → Room n w
      → (page : ℕ) × (w' : W) × (platform.os.mmap platform.size fd w
          ≡ (page * platform.page_size, w'))
        × (page * platform.page_size ≢ map_failed)
        × Room n w'
  -- A page is a number of whole cache lines.
  pub lines : ℕ
  pub page_lines : platform.page_size ≡ lines * platform.cacheline_bytes

module _ {W : Type 0} (platform : Platform W) (opens : Opens platform) where
  aligned :
      (page : ℕ)
      → (platform.page_size % platform.cacheline_bytes ≡ 0)
        × (page * platform.page_size % platform.cacheline_bytes ≡ 0)
  aligned page = (
    ap (λ n. n % platform.cacheline_bytes) opens.page_lines
        ∙ mul-mod_left opens.lines platform.cacheline_bytes,
    ap (λ n. page * n % platform.cacheline_bytes) opens.page_lines
        ∙ ap (λ n. n % platform.cacheline_bytes)
            (sym (mul_assoc page opens.lines platform.cacheline_bytes))
        ∙ mul-mod_left (page * opens.lines) platform.cacheline_bytes,
  )

  -- With room for one more, `init` gets over its assertions on the mapping.
  pub shmem_create-Room :
      (addr n : ℕ) (name : Bytes) (w : W)
      → opens.Usable name
      → opens.Room (suc n) w
      → (buf : ℕ) × (w' : W) × (shmem_create platform.os addr name platform.size w ≡ (0, buf, w'))
        × (is_mapped platform 0 buf ≡ true)
        × opens.Room n w'
  unfolding shmem_create after_open after_truncate after_mmap is_mapped
  shmem_create-Room addr n name w usable room =
      let (fd, w1, e1, room1) = opens.shm_open n name w usable room in
      let (w2, e2, room2) = opens.ftruncate n fd w1 room1 in
      let (page, w3, e3, mapped, room3) = opens.mmap n fd w2 room2 in
      let (whole, at_line) = aligned page in
      (
        page * platform.page_size,
        w3,
        rw (e1, e2, e3, ne→== (page * platform.page_size) map_failed mapped) refl,
        rw (whole, at_line) refl,
        room3,
      )
