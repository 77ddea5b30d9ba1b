-- ===== src/Ipc/Shmem/Buf.antt =====
-- tyndall/ipc/shmem.h: the life of `shmem_buf` objects: `init`, destruction, and the moves.
pub mod Owner
pub mod Moves
use tyndall.Base.{◌≢◌, ℕ, Bool, true, false, Option, none, some, ◌≡◌}
use tyndall.Ipc.SeqLock.Protocol.{update}

-- The objects of a process by number, with the address in `buf` (none is NULL, also for an object
-- that is gone), and the addresses where a data structure is mapped. `uninit` unmaps the bytes of the data
-- structure; Shmem.Pages is about the page of the tailer behind it.
pub record Bufs : Type 0 where
  pub buf : ℕ → Option ℕ
  pub mapped : ℕ → Bool

abbrev pub unmap : Option ℕ → (ℕ → Bool) → ℕ → Bool
unmap none mapped = mapped
unmap (some address) mapped = update mapped address false

unfoldable pub uninit : ℕ → Bufs → Bufs
uninit i s = record s { mapped = unmap (s.buf i) s.mapped }

-- `init` behind `shmem_create`, with the address that mmap returned.
unfoldable pub init_buf : ℕ → ℕ → Bufs → Bufs
init_buf i address s = record s {
  buf = update s.buf i (some address);
  mapped = update s.mapped address true;
}

-- The destructor; the object is gone.
unfoldable pub destroy : ℕ → Bufs → Bufs
destroy i s = let s' = uninit i s in record s' { buf = update s'.buf i none }

-- `operator=(shmem_buf&&)` of the object `i` with the object `other`, which can be `i` itself.
unfoldable pub move_assign : ℕ → ℕ → Bufs → Bufs
move_assign i other s =
    let s' = uninit i s in
    let assigned = update s'.buf i (s'.buf other) in record s' { buf = update assigned other none }

-- `shmem_buf(shmem_buf&& other)` for a new object `i`.
unfoldable pub move_construct : ℕ → ℕ → Bufs → Bufs
move_construct i other s =
    let constructed = update s.buf i (s.buf other) in
    record s { buf = update constructed other none }

-- What a process does with its objects. A new object has a number that is not in use, `init` is
-- called on an object that holds nothing, and mmap returns an address that is not in use.
pub data BufStep (s : Bufs) : Bufs → Type 0 where
  initialized :
      (i address : ℕ) → s.buf i ≡ none → s.mapped address ≡ false → BufStep s (init_buf i address s)
  destroyed : (i : ℕ) → BufStep s (destroy i s)
  assigned : (i other : ℕ) → BufStep s (move_assign i other s)
  constructed : (i other : ℕ) → i ≢ other → s.buf i ≡ none → BufStep s (move_construct i other s)
