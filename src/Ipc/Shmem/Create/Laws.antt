-- ===== src/Ipc/Shmem/Create/Laws.antt =====
-- What `shmem_create` gives when it succeeds, and what it leaves behind in any case.
use tyndall.Base.{
  ◌∙◌, ap, ℕ, Bool-cases, ◌==◌, inl, inr, Option, none, some, Bytes, ◌≡◌, refl, arith,
}
use tyndall.Ipc.Shmem.Create.{
  map_failed, ShmCalls, after_mmap, after_truncate, after_open, shmem_create,
}
use tyndall.Ipc.Shmem.Create.Posix.{Posix}

module _ {ℓ} {W : Type ℓ} (os : ShmCalls W) (posix : Posix os) where
  mapped_lem :
      (size fd : ℕ) (id : Bytes) (w : W)
      → posix.names fd w ≡ some id
      → posix.size_of id w ≡ size
      → (after_mmap os (os.mmap size fd w)).0 ≡ 0
      → let (_, address, w') = after_mmap os (os.mmap size fd w) in
        (posix.mapping address w' ≡ some (id, size)) × (posix.size_of id w' ≡ size)
  unfolding after_mmap
  mapped_lem size fd id w named sized done =
      elim (Bool-cases ((os.mmap size fd w).0 == map_failed)) [
        | inl failed ↦ absurd (cc (rw (failed) at done))
        | inr mapped ↦ (
          posix.maps size fd _ id w _ named refl (ground (arith, mapped)),
          posix.mmap_resizes size fd id w ∙ sized,
        )
      ]

  truncated_lem :
      (addr size fd : ℕ) (id : Bytes) (w : W)
      → posix.names fd w ≡ some id
      → (after_truncate os addr size fd (os.ftruncate fd size w)).0 ≡ 0
      → let (_, address, w') = after_truncate os addr size fd (os.ftruncate fd size w) in
        (posix.mapping address w' ≡ some (id, size)) × (posix.size_of id w' ≡ size)
  unfolding after_truncate
  truncated_lem addr size fd id w named done = elim (Bool-cases (os.ftruncate fd size w).0) [
    | inl succeeded ↦ rw (succeeded) (
        mapped_lem size fd id (os.ftruncate fd size w).1 (posix.truncate_keeps fd size fd w ∙ named)
          (posix.truncates fd size id w _ named
            (ap (λ b. (b, (os.ftruncate fd size w).1)) succeeded))
          (rw (succeeded) at done))
    | inr failed ↦ absurd (cc (rw (failed) at done))
  ]

  opened_lem :
      (addr size : ℕ) (id : Bytes) (w : W) (opened : Option ℕ × W)
      → os.shm_open id w ≡ opened
      → (after_open os addr size opened).0 ≡ 0
      → let (_, address, w') = after_open os addr size opened in
        (posix.mapping address w' ≡ some (id, size)) × (posix.size_of id w' ≡ size)
  unfolding after_open
  opened_lem addr size id w (none, w') e done = absurd (cc done)
  opened_lem addr size id w (some fd, w') e done =
      truncated_lem addr size fd id w' (posix.opens id fd w w' e) done

  -- If `shmem_create` returns 0, then `*addr` is the address of a mapping of `size` bytes of the memory
  -- of that name, and this memory is `size` bytes large.
  pub shmem_create_lem :
      (addr : ℕ) (id : Bytes) (size : ℕ) (w : W)
      → (shmem_create os addr id size w).0 ≡ 0
      → let (_, address, w') = shmem_create os addr id size w in
        (posix.mapping address w' ≡ some (id, size)) × (posix.size_of id w' ≡ size)
  unfolding shmem_create
  shmem_create_lem addr id size w done = opened_lem addr size id w (os.shm_open id w) refl done

  truncated_leaks :
      (addr size fd : ℕ) (id : Bytes) (w : W)
      → posix.names fd w ≡ some id
      → posix.names fd (after_truncate os addr size fd (os.ftruncate fd size w)).2 ≡ some id
  unfolding after_truncate after_mmap
  truncated_leaks addr size fd id w named = elim (Bool-cases (os.ftruncate fd size w).0) [
    | inl succeeded ↦
        rw (succeeded) (posix.mmap_keeps size fd fd _ ∙ posix.truncate_keeps fd size fd w ∙ named)
    | inr failed ↦ rw (failed) (posix.truncate_keeps fd size fd w ∙ named)
  ]

  -- Once `shm_open` has given a descriptor, it is still open when `shmem_create` returns, whatever it
  -- returns: nothing of it is handed to the caller, and nobody closes it.
  pub shmem_create_leaks :
      (addr : ℕ) (id : Bytes) (size fd : ℕ) (w w' : W)
      → os.shm_open id w ≡ (some fd, w')
      → posix.names fd (shmem_create os addr id size w).2 ≡ some id
  unfolding shmem_create after_open
  shmem_create_leaks addr id size fd w w' e =
      rw (e) (truncated_leaks addr size fd id w' (posix.opens id fd w w' e))
