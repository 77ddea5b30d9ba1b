-- ===== src/Ipc/Objects.antt =====
-- The types of the transports in ipc.h and ipc_rtid.h, and the constructors of shmem_buf in shmem.h. `none`
-- is what does not compile: a static_assert that fails.
pub mod Agree
use tyndall.Base.{
  ℕ, ◌/◌, ◌%◌, Bool, true, false, if◌then◌else◌, ◌==◌, Option, none, some, Bytes, [], length,
}
use tyndall.Meta.Strval.{occurrences, is_different}
use tyndall.Meta.Strval.Decimal.{ToString}
use tyndall.Ipc.Id.{id_prepare, id_rtid_prepare, slash}

-- `shmem_permission`
abbrev pub shmem_read : ℕ
shmem_read = 1

abbrev pub shmem_write : ℕ
shmem_write = 2

-- The arguments PERMISSIONS and ID of shmem_buf.
pub record Transport : Type 0 where
  pub permissions : ℕ
  pub id : Bytes

-- `PERMISSIONS & flag`, for a flag of one bit.
abbrev pub has_flag : (permissions flag : ℕ) → Bool
has_flag permissions flag = permissions / flag % 2 == 1

-- The static_assert in `write`, and the one in `read`.
unfoldable pub can_write : Transport → Bool
can_write t = has_flag t.permissions shmem_write

unfoldable pub can_read : Transport → Bool
can_read t = has_flag t.permissions shmem_read

-- `shmem_buf()`: the name that `init` is called with, or no call.
unfoldable pub construct_static : Transport → Option (Option Bytes)
construct_static t =
    if occurrences t.id slash == 0
    then some (if is_different t.id [] then some t.id else none)
    else none

-- `shmem_buf(const char* id)`: the name that `init` is called with.
unfoldable pub construct_named : Transport → Bytes → Option Bytes
construct_named t name = if length t.id == 0 then some name else none

unfoldable pub ipc_writer : Bool → Bytes → Transport
ipc_writer signed id = record { permissions = shmem_write; id = id_prepare signed id }

unfoldable pub ipc_reader : Bool → Bytes → Transport
ipc_reader signed id = record { permissions = shmem_read; id = id_prepare signed id }

unfoldable pub ipc_rtid_writer : Transport
ipc_rtid_writer = record { permissions = shmem_write; id = [] }

unfoldable pub ipc_rtid_reader : Transport
ipc_rtid_reader = record { permissions = shmem_read; id = [] }

unfoldable pub create_ipc_writer : Bool → Bytes → Option (Option Bytes)
create_ipc_writer signed id = construct_static (ipc_writer signed id)

unfoldable pub create_ipc_reader : Bool → Bytes → Option (Option Bytes)
create_ipc_reader signed id = construct_static (ipc_reader signed id)

unfoldable pub create_ipc_rtid_writer : ToString → Bool → Bytes → Option Bytes
create_ipc_rtid_writer std signed id =
    construct_named ipc_rtid_writer (id_rtid_prepare std signed id)

unfoldable pub create_ipc_rtid_reader : ToString → Bool → Bytes → Option Bytes
create_ipc_rtid_reader std signed id =
    construct_named ipc_rtid_reader (id_rtid_prepare std signed id)
