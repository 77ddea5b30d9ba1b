-- ===== src/Ipc/Id/Agree.antt =====
-- The compile time and the run time names of id.h agree, but for an id whose hash is 0.
use tyndall.Base.{
  Bool, Bytes, [], ◌∷◌, ◌++◌, append_assoc, append_cancel_left, append_inj_left, length, codes, ◌≡◌,
  ◌≢◌, refl, sym, ◌∙◌, arith, All,
}
use tyndall.Meta.Hash.{hash_fnv1a_32}
use tyndall.Meta.Strval.{replace, remove_leading, to_strval}
use tyndall.Meta.Strval.Laws.{append-++, replace-append}
use tyndall.Meta.Strval.Decimal.{
  ToString, IsDigit, decimal_value-to_strval, to_strval-to_string, to_strval_zero,
}
use tyndall.Ipc.Id.{
  ipc_shmem_prefix, slash, underscore, id_remove_leading_slashes, id_hash,
  id_replace_slashes_with_underscores, id_prepare, skip_slashes, replace_loop, id_rtid_prepare,
}

-- The parts of a name: prefix, id without slashes, hash.
abbrev pub assemble : Bytes → Bytes → Bytes
assemble name hash = ipc_shmem_prefix ++ (codes "_" ++ (name ++ (codes "_" ++ hash)))

-- A name of known length in the middle can be told from the hash.
pub assemble_inj :
    (n m h k : Bytes) → length n ≡ length m → assemble n h ≡ assemble m k → (n ≡ m) × (h ≡ k)
assemble_inj n m h k same_length e =
    let tails : n ++ (codes "_" ++ h) ≡ m ++ (codes "_" ++ k) =
      append_cancel_left (ipc_shmem_prefix ++ codes "_") e in
    let names : n ≡ m = append_inj_left n m (codes "_" ++ h) (codes "_" ++ k) same_length tails in
    (names, append_cancel_left (codes "_") (append_cancel_left m (rw names at tails)))

pub id_prepare-assemble :
    (signed : Bool) (id : Bytes)
    → id_prepare signed id
      ≡ assemble
          (replace slash underscore (remove_leading slash id))
          (to_strval (hash_fnv1a_32 signed (remove_leading slash id)))
unfolding id_prepare id_remove_leading_slashes id_replace_slashes_with_underscores id_hash
id_prepare-assemble signed id = simp (append-++, append_assoc)

skip_slashes-remove_leading : (id : Bytes) → skip_slashes id ≡ remove_leading slash id
unfolding skip_slashes remove_leading
skip_slashes-remove_leading [] = refl
skip_slashes-remove_leading (c ∷ id) = rw (skip_slashes-remove_leading id)

replace_loop-replace : (s : Bytes) → replace_loop s ≡ replace slash underscore s
unfolding replace_loop replace
replace_loop-replace [] = refl
replace_loop-replace (c ∷ s) = rw (replace_loop-replace s)

-- Digits hold no slash.
replace_digits : (s : Bytes) → All IsDigit s → replace slash underscore s ≡ s
unfolding replace
replace_digits [] _ = refl
replace_digits (c ∷ s) (h, hs) = rw (replace_digits s hs) (ground arith)

replace_prefix :
    (s : Bytes)
    → replace slash underscore (ipc_shmem_prefix ++ (codes "_" ++ s))
      ≡ ipc_shmem_prefix ++ (codes "_" ++ replace slash underscore s)
unfolding replace
replace_prefix s = refl

id_rtid_prepare-assemble :
    (std : ToString) (signed : Bool) (id : Bytes)
    → id_rtid_prepare std signed id
      ≡ assemble (replace slash underscore (remove_leading slash id)) (
          replace slash underscore (std.to_string (hash_fnv1a_32 signed (remove_leading slash id))))
unfolding id_rtid_prepare
id_rtid_prepare-assemble std signed id =
    let hash = hash_fnv1a_32 signed (remove_leading slash id) in
    rw (replace_loop-replace, skip_slashes-remove_leading, replace_prefix, replace-append)
      (unfold replace in refl)

-- At compile time and at run time an id gets the same name, if its hash is not 0; so `ipc_write`
-- and `ipc_rtid_read` of one id meet in one shared memory.
pub id_rtid_prepare-id_prepare :
    (std : ToString) (signed : Bool) (id : Bytes)
    → hash_fnv1a_32 signed (id_remove_leading_slashes id) ≢ 0
    → id_rtid_prepare std signed id ≡ id_prepare signed id
unfolding id_remove_leading_slashes
id_rtid_prepare-id_prepare std signed id ne =
    let hash = hash_fnv1a_32 signed (remove_leading slash id) in
    rw
      (
        id_rtid_prepare-assemble,
        id_prepare-assemble,
        ← to_strval-to_string std hash (omega arith),
        replace_digits (to_strval hash) (decimal_value-to_strval hash).1,
      )
      refl

zero_is_printed : [] ≢ replace slash underscore (codes "0")
unfolding replace
zero_is_printed e = cc

-- An id whose hash is 0 gets two names: `to_strval<0>` is empty, and `std::to_string(0)` is not.
pub id_rtid_prepare-ne-id_prepare :
    (std : ToString) (signed : Bool) (id : Bytes)
    → hash_fnv1a_32 signed (id_remove_leading_slashes id) ≡ 0
    → id_rtid_prepare std signed id ≢ id_prepare signed id
unfolding id_remove_leading_slashes
id_rtid_prepare-ne-id_prepare std signed id zero_hash same =
    let name = replace slash underscore (remove_leading slash id) in
    let run_time = rw zero_hash at (id_rtid_prepare-assemble std signed id) in
    let compile_time = rw zero_hash at (id_prepare-assemble signed id) in
    let hashes : replace slash underscore (std.to_string 0) ≡ to_strval 0 =
      (assemble_inj name name _ _ refl (sym run_time ∙ same ∙ compile_time)).1 in
    zero_is_printed (sym (rw (std.one_digit 0 (omega arith), to_strval_zero) at hashes))
