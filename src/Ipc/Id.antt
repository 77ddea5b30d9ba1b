-- ===== src/Ipc/Id.antt =====
-- tyndall/ipc/id.h: the name of the shared memory for a topic, made at compile time (`id_prepare`)
-- or at run time (`id_rtid_prepare`).
pub mod Agree
pub mod Names
use tyndall.Base.{ℕ, Bool, if◌then◌else◌, ◌==◌, Bytes, [], ◌∷◌, ◌++◌, codes}
use tyndall.Meta.Hash.{hash_fnv1a_32}
use tyndall.Meta.Strval.{append, replace, remove_leading, to_strval}
use tyndall.Meta.Strval.Decimal.{ToString}

abbrev pub ipc_shmem_prefix : Bytes
ipc_shmem_prefix = codes "ipc1ef42bc4e0bbfeb0ac34bc3642732768cf6f77b7"

abbrev pub slash : ℕ
slash = b'/'

abbrev pub underscore : ℕ
underscore = b'_'

-- Compile time generation, on strvals.
unfoldable pub id_remove_leading_slashes : Bytes → Bytes
id_remove_leading_slashes string = remove_leading slash string

unfoldable pub id_hash : Bool → Bytes → Bytes
id_hash signed string = to_strval (hash_fnv1a_32 signed string)

unfoldable pub id_replace_slashes_with_underscores : Bytes → Bytes
id_replace_slashes_with_underscores string = replace slash underscore string

unfoldable pub id_prepare : Bool → Bytes → Bytes
id_prepare signed id =
    append
      (append
        (append (append ipc_shmem_prefix (codes "_"))
          (id_replace_slashes_with_underscores (id_remove_leading_slashes id)))
        (codes "_"))
      (id_hash signed (id_remove_leading_slashes id))

-- Run time generation, on a C string (its bytes before the NUL).
-- `while (*id == '/') ++id;`
skip_slashes : Bytes → Bytes
skip_slashes [] = []
skip_slashes (c ∷ id) = let rest = skip_slashes id in if c == slash then rest else c ∷ id

-- `for (char& c : prepared_id) if (c == '/') c = '_';`
replace_loop : Bytes → Bytes
replace_loop [] = []
replace_loop (c ∷ prepared_id) = (if c == slash then underscore else c) ∷ replace_loop prepared_id

unfoldable pub id_rtid_prepare : ToString → Bool → Bytes → Bytes
unfolding skip_slashes replace_loop
id_rtid_prepare std signed id =
    let name = skip_slashes id in
    replace_loop (
      (ipc_shmem_prefix ++ codes "_")
      ++ (name ++ (codes "_" ++ std.to_string (hash_fnv1a_32 signed name))))
