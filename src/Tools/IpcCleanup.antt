-- ===== src/Tools/IpcCleanup.antt =====
-- tools/ipc_cleanup.cpp: `main`, which removes the shared memories of all topics and prints their names.
use tyndall.Base.{
  Bool-cases, inl, inr, true, if◌then◌else◌, Option, none, some, Bytes, List, [], ◌∷◌, ℤ, pos,
  negsuc, ◌≡◌, refl, ap,
}
use tyndall.Ipc.Id.{ipc_shmem_prefix}
use tyndall.Ipc.Shmem.{
  DevShm, c_name, match_loop, shmem_unlink, unlink_loop, unlink_entries, shmem_unlink_all,
  ipc_cleanup,
}

module _ {ℓ} {W : Type ℓ} (os : DevShm W) where
  -- The loop over the entries: the names printed, and the world behind.
  unfoldable pub cleanup_loop : Bytes → List Bytes → W → List Bytes × W
  cleanup_loop prefix [] w = ([], w)
  cleanup_loop prefix (dir_name ∷ entries) w =
      let (removed, after) = cleanup_loop prefix entries (shmem_unlink os (c_name dir_name) w) in
      let (others, kept) = cleanup_loop prefix entries w in
      if match_loop prefix dir_name true then (c_name dir_name ∷ removed, after) else (others, kept)

  -- Behind `opendir`: the exit code, the names printed, and the world.
  unfoldable pub cleanup_entries : Bytes → Option (List Bytes) → W → ℤ × List Bytes × W
  cleanup_entries prefix none w = (negsuc 0, [], w)
  cleanup_entries prefix (some entries) w =
      let (removed, after) = cleanup_loop prefix entries w in (pos 0, removed, after)

  unfoldable pub main : W → ℤ × List Bytes × W
  main w = cleanup_entries ipc_shmem_prefix (os.opendir w) w

  -- The names that the prefix matches, in the order of the directory.
  unfoldable pub matching : Bytes → List Bytes → List Bytes
  matching prefix [] = []
  matching prefix (e ∷ entries) =
      let rest = matching prefix entries in
      if match_loop prefix e true then c_name e ∷ rest else rest

  cleanup_loop_lem :
      (prefix : Bytes) (entries : List Bytes) (w : W)
      → cleanup_loop prefix entries w ≡ (matching prefix entries, unlink_loop os prefix entries w)
  unfolding cleanup_loop matching unlink_loop
  cleanup_loop_lem prefix [] w = refl
  cleanup_loop_lem prefix (e ∷ entries) w = elim (Bool-cases (match_loop prefix e true)) [
    | inl begins ↦ rw (begins, cleanup_loop_lem prefix entries (shmem_unlink os (c_name e) w))
    | inr differs ↦ rw (differs, cleanup_loop_lem prefix entries w)
  ]

  entries_agree :
      (prefix : Bytes) (found : Option (List Bytes)) (w : W)
      → ((cleanup_entries prefix found w).0 ≡ (unlink_entries os prefix found w).0)
        × ((cleanup_entries prefix found w).2 ≡ (unlink_entries os prefix found w).1)
  unfolding cleanup_entries unlink_entries
  entries_agree prefix none w = (refl, refl)
  entries_agree prefix (some entries) w =
      (refl, ap (λ (r : List Bytes × W). r.1) (cleanup_loop_lem prefix entries w))

  -- The program ends with the code of `ipc_cleanup` and leaves the same shared memories.
  pub main-ipc_cleanup :
      (w : W) → ((main w).0 ≡ (ipc_cleanup os w).0) × ((main w).2 ≡ (ipc_cleanup os w).1)
  unfolding main ipc_cleanup shmem_unlink_all
  main-ipc_cleanup w = entries_agree ipc_shmem_prefix (os.opendir w) w
