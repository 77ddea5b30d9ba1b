-- ===== src/Ipc/Shmem.antt =====
-- tyndall/ipc/shmem.h: the clean up of shared memory by the prefix of its name, and the check of the
-- type of a topic when it is opened.
pub mod Cleanup
pub mod TypeCheck
pub mod Buf
pub mod Pages
pub mod Create
pub mod Directory
use tyndall.Base.{
  ℕ, zero, suc, Bool, true, false, not, ◌&&◌, ◌||◌, if◌then◌else◌, ◌==◌, Option, none, some, Bytes,
  List, [], ◌∷◌, ℤ, pos, negsuc, char_at, drop, ◌≡◌,
}
use tyndall.Meta.Strval.{is_same}
use tyndall.Ipc.Id.{ipc_shmem_prefix}

-- The text in front of the first NUL of a buffer.
abbrev pub c_name : Bytes → Bytes
c_name [] = []
c_name (c ∷ s) = let rest = c_name s in if c == 0 then [] else c ∷ rest

abbrev pub has_name : Bytes → List Bytes → Bool
has_name m [] = false
has_name m (e ∷ es) = is_same m (c_name e) || has_name m es

-- What POSIX documents of /dev/shm: `opendir` and `readdir` give the `d_name` buffers of the entries,
-- one for every shared memory that there is, and `shm_unlink`, by a user who may, removes a name and
-- no other.
pub record DevShm {ℓ} (W : Type ℓ) : Type ℓ where
  pub exists : Bytes → W → Bool
  pub opendir : W → Option (List Bytes)
  pub shm_unlink : Bytes → W → W
  pub unlinks :
      (name m : Bytes) (w : W) → exists m (shm_unlink name w) ≡ (exists m w && not (is_same m name))
  pub lists :
      (w : W) (entries : List Bytes) (m : Bytes)
      → opendir w ≡ some entries
      → exists m w ≡ true
      → has_name m entries ≡ true

-- The loop over the prefix. Behind the NUL of a shorter name it reads what the buffer holds.
unfoldable pub match_loop : Bytes → Bytes → Bool → Bool
match_loop [] dir_name matches = matches
match_loop (p ∷ prefix) dir_name matches =
    match_loop prefix (drop 1 dir_name) (if not (char_at dir_name == p) then false else matches)

module _ {ℓ} {W : Type ℓ} (os : DevShm W) where
  unfoldable pub shmem_unlink : Bytes → W → W
  shmem_unlink id w = os.shm_unlink id w

  -- The loop over the entries.
  unfoldable pub unlink_loop : Bytes → List Bytes → W → W
  unlink_loop prefix [] w = w
  unlink_loop prefix (dir_name ∷ entries) w =
      unlink_loop prefix entries
        (if match_loop prefix dir_name true then shmem_unlink (c_name dir_name) w else w)

  -- Behind `opendir`.
  unfoldable pub unlink_entries : Bytes → Option (List Bytes) → W → ℤ × W
  unlink_entries prefix none w = (negsuc 0, w)
  unlink_entries prefix (some entries) w = (pos 0, unlink_loop prefix entries w)

  -- The return code, and the world behind.
  unfoldable pub shmem_unlink_all : Bytes → W → ℤ × W
  shmem_unlink_all prefix w = unlink_entries prefix (os.opendir w) w

  -- tyndall/ipc/ipc.h
  unfoldable pub ipc_cleanup : W → ℤ × W
  ipc_cleanup w = shmem_unlink_all ipc_shmem_prefix w

-- `smp_cmp_xch` of smp.h: the variable behind the call, and whether it returns 0.
unfoldable pub smp_cmp_xch : ℕ → ℕ → ℕ → ℕ × Bool
smp_cmp_xch x expected desired = if x == expected then (desired, true) else (x, false)

-- The end of `init` on the hash `th` in the tailer: the hash behind it, and whether the assertion holds.
unfoldable pub init_tailer : (type_hash th : ℕ) → ℕ × Bool
init_tailer type_hash th =
    let (th', exchanged) = smp_cmp_xch th 0 type_hash in
    (th', if exchanged then true else th' == type_hash)
