-- ===== src/Ipc/Examples/Kernel.antt =====
-- shmem.h on a kernel with one descriptor and one shared memory, and the theorems applied.
use tyndall.Base.{ℕ, Bool, true, Option, none, some, Bytes, codes, ◌≡◌, refl, ap, sym, ◌∙◌}
use tyndall.Ipc.Shmem.Create.{ShmCalls, shmem_create, after_open, after_truncate, after_mmap}
use tyndall.Ipc.Shmem.Create.Posix.{Posix}
use tyndall.Ipc.Shmem.Create.Laws.{shmem_create_lem, shmem_create_leaks}

-- The name behind the descriptors, the size of the memories, and what is mapped.
record Kernel : Type 0 where
  descriptor : Option Bytes
  memory : ℕ
  mapped : Option (Bytes × ℕ)

abbrev with_size : Option Bytes → ℕ → Option (Bytes × ℕ)
with_size none size = none
with_size (some id) size = some (id, size)

abbrev calls : ShmCalls Kernel
calls = record {
  shm_open = λ id w. (some 3, record w { descriptor = some id });
  ftruncate = λ fd size w. (true, record w { memory = size });
  mmap = λ size fd w. (4096, record w { mapped = with_size w.descriptor size });
}

abbrev posix : Posix calls
posix = record {
  names = λ fd w. w.descriptor;
  size_of = λ id w. w.memory;
  mapping = λ address w. w.mapped;
  opens = λ id fd w w' e. ap (λ (r : Option ℕ × Kernel). r.1.descriptor) (sym e);
  truncate_keeps = λ fd size other w. refl;
  mmap_keeps = λ fd size other w. refl;
  truncates = λ fd size id w w' named e. ap (λ (r : Bool × Kernel). r.1.memory) (sym e);
  maps = λ size fd address id w w' named e ok.
      ap (λ (r : ℕ × Kernel). r.1.mapped) (sym e) ∙ ap (λ n. with_size n size) named;
  mmap_resizes = λ size fd id w. refl;
}

abbrev booted : Kernel
booted = record { descriptor = none; memory = 0; mapped = none }

shmem_create_lem_example :
    let (_, address, w') = shmem_create calls 0 (codes "ipc_a") 128 booted in
    (posix.mapping address w' ≡ some (codes "ipc_a", 128))
    × (posix.size_of (codes "ipc_a") w' ≡ 128)
unfolding shmem_create after_open after_truncate after_mmap
shmem_create_lem_example = shmem_create_lem calls posix 0 (codes "ipc_a") 128 booted refl

shmem_create_leaks_example :
    posix.names 3 (shmem_create calls 0 (codes "ipc_a") 128 booted).2 ≡ some (codes "ipc_a")
shmem_create_leaks_example =
    shmem_create_leaks calls posix 0 (codes "ipc_a") 128 3 booted
      (record booted { descriptor = some (codes "ipc_a") }) refl
