-- ===== src/Ipc/Examples/Memory.antt =====
-- shmem.h and ipc_rtid.h at concrete inputs, and the theorems applied.
use mathlib.Core.List.{map}
use tyndall.Base.{
  ℕ, ◌+◌, ◌%◌, ◌/◌, ◌⊎◌, ◌↔◌, Bool, true, false, not, ◌&&◌, ◌==◌, Bytes, List, [], ◌∷◌, ◌++◌, codes,
  starts_with, get_elem?, some, ◌≢◌, pos, ◌≡◌, refl, arith,
}
use tyndall.Meta.Hash.{char_to_u32, hash_fnv1a_32_count}
use tyndall.Meta.Typeinfo.{
  CppType, plain, const_of, volatile_of, lvalue_reference, rvalue_reference, typeinfo_raw,
  typeinfo_remove_cvref, typeinfo_hash, remove_cv, remove_reference,
}
use tyndall.Meta.Strval.Printer.{printer}
use tyndall.Ipc.Id.{id_prepare, id_rtid_prepare}
use tyndall.Ipc.Shmem.Directory.{directory}
use tyndall.Ipc.Shmem.{has_name, init_tailer, smp_cmp_xch, shmem_unlink_all, ipc_cleanup}
use tyndall.Ipc.Shmem.Cleanup.{shmem_unlink_all_lem, ipc_cleanup-id_prepare}
use tyndall.Ipc.Shmem.TypeCheck.{init_all, init_all_lem, init_all-typeinfo_hash}
use tyndall.Ipc.Shmem.Pages.{init_pages, uninit_pages, uninit_pages-init_pages, page_size}
use tyndall.Ipc.Rtid.{create_ipc_rtid_lazy}
use tyndall.Ipc.Rtid.Registry.{create_all, create_ipc_rtid_lazy_again}

-- The entries of /dev/shm, with what the buffers hold behind the names.
abbrev shm_entries : List Bytes
shm_entries =
    (codes "ipc_a" ++ 0 ∷ 9 ∷ []) ∷ (codes "sem.b" ++ 0 ∷ []) ∷ (codes "ip" ++ 0 ∷ codes "c_c") ∷ []

shmem_unlink_all_lem_test :
    ((shmem_unlink_all directory (codes "ipc") shm_entries).0 ≡ pos 0)
    × (has_name (codes "ip") (shmem_unlink_all directory (codes "ipc") shm_entries).1
        ≡ (has_name (codes "ip") shm_entries && not (starts_with (codes "ipc") (codes "ip"))))
unfolding directory
shmem_unlink_all_lem_test =
    shmem_unlink_all_lem directory (codes "ipc") shm_entries shm_entries (codes "ip")
      (omega arith, (omega arith, (omega arith, tt))) refl

ipc_cleanup-id_prepare_test :
    has_name (id_prepare true (codes "/a")) (ipc_cleanup directory shm_entries).1 ≡ false
unfolding directory
ipc_cleanup-id_prepare_test =
    ipc_cleanup-id_prepare directory shm_entries shm_entries true (codes "/a") refl

init_all_lem_test : init_all (5 ∷ 5 ∷ 6 ∷ []) 0 ≡ true ∷ map (λ k. 5 == k) (5 ∷ 6 ∷ [])
init_all_lem_test = init_all_lem 5 (5 ∷ 6 ∷ []) (omega arith)

-- The text of a type ends in its letter.
abbrev type_text : CppType → Bytes
type_text (plain n) = codes "hash() [with Type = " ++ (65 + n) ∷ codes "]"
type_text (const_of t) = codes "const"
type_text (volatile_of t) = codes "volatile"
type_text (lvalue_reference t) = codes "&"
type_text (rvalue_reference t) = codes "&&"

abbrev opened_types : List CppType
opened_types = plain 0 ∷ lvalue_reference (const_of (plain 0)) ∷ plain 1 ∷ []

init_all-typeinfo_hash_test :
    get_elem? (init_all (map (typeinfo_hash true type_text) opened_types) 0) 2 ≢ some true
unfolding init_all init_tailer smp_cmp_xch typeinfo_hash typeinfo_raw typeinfo_remove_cvref
    remove_cv remove_reference hash_fnv1a_32_count char_to_u32
init_all-typeinfo_hash_test =
    init_all-typeinfo_hash true type_text opened_types 0 1 2 (lvalue_reference (const_of (plain 0)))
      (plain 1) (codes "hash() [with Type = ") (codes "]") 65 66 (omega arith) refl refl refl refl
      (omega arith) (omega arith) (omega arith, tt) (omega arith) (omega arith) refl

abbrev no_page : ℕ → Bool
no_page p = false

-- A topic of exactly a page.
uninit_pages-init_pages_example :
    (uninit_pages 4096 (some 7) (init_pages 4096 8 7 no_page) 8 ≡ true)
    ↔ ((no_page 8 ≡ true) ⊎ ((4096 % page_size ≡ 0) × (8 ≡ 7 + 4096 / page_size)))
uninit_pages-init_pages_example =
    uninit_pages-init_pages 4096 8 7 8 no_page refl (omega arith) (omega arith) (λ p h lt. refl)

-- A transport is the number of transports made before.
abbrev make_transport : Bytes → ℕ → ℕ × ℕ
make_transport name w = (w, w + 1)

same_name : id_rtid_prepare printer true (codes "//a") ≡ id_rtid_prepare printer true (codes "/a")
unfolding id_rtid_prepare
same_name = refl

create_ipc_rtid_lazy_again_test :
    let (i, registry, w) = create_ipc_rtid_lazy make_transport printer true (codes "/a") [] 0 in
    let (registry', w') = create_all make_transport printer true (codes "/b" ∷ []) registry w in
    create_ipc_rtid_lazy make_transport printer true (codes "//a") registry' w' ≡ (i, registry', w')
create_ipc_rtid_lazy_again_test =
    create_ipc_rtid_lazy_again make_transport printer true (codes "/a") (codes "//a")
      (codes "/b" ∷ []) [] 0 same_name
