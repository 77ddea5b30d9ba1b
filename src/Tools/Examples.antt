-- ===== src/Tools/Examples.antt =====
-- The tools at concrete inputs, and the theorems applied.
mod IpcRead
use tyndall.Base.{Bytes, ◌++◌, codes, List, [], ◌∷◌, ◌≡◌, refl, arith}
use tyndall.Ipc.Shmem.{ipc_cleanup}
use tyndall.Ipc.Shmem.Directory.{directory}
use tyndall.Tools.IpcCleanup.{main, main-ipc_cleanup}
use tyndall.Reflect.PrintFormat.{char, int, double, size_of}
use tyndall.Reflect.Reflection.{get_format}
use tyndall.Tools.IpcRead.{print}
use tyndall.Tools.IpcRead.Layout.{struct_of, fields_from, print-get_format}

-- { char; int; char; double } at the address 64.
print-get_format_test :
    print (λ _. 0) (get_format (struct_of (char ∷ int ∷ char ∷ double ∷ []))) 64 24
    ≡ fields_from 64 0 (char ∷ int ∷ char ∷ double ∷ [])
unfolding size_of
print-get_format_test =
    print-get_format (λ _. 0) 64 24 (char ∷ int ∷ char ∷ double ∷ []) refl (omega arith)

-- The entries of /dev/shm.
abbrev shm_entries : List Bytes
shm_entries =
    (codes "sem.b" ++ 0 ∷ [])
    ∷ (codes "ipc1ef42bc4e0bbfeb0ac34bc3642732768cf6f77b7_a_1" ++ 0 ∷ [])
    ∷ []

main-ipc_cleanup_test :
    ((main directory shm_entries).0 ≡ (ipc_cleanup directory shm_entries).0)
    × ((main directory shm_entries).2 ≡ (ipc_cleanup directory shm_entries).1)
main-ipc_cleanup_test = main-ipc_cleanup directory shm_entries
