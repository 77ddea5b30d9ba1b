-- ===== src/Ipc/Examples/Objects.antt =====
-- shmem_buf of shmem.h at concrete objects, and the theorem applied.
use tyndall.Base.{false, none, some, ◌≡◌, refl}
use tyndall.Ipc.Shmem.Buf.{Bufs, init_buf, move_assign, uninit, initialized, assigned}
use tyndall.Ipc.Shmem.Buf.Owner.{Owned}
use tyndall.Ipc.Shmem.Buf.Moves.{BufStep-Owned}

-- No object holds anything yet.
abbrev no_bufs : Bufs
no_bufs = record { buf = λ _. none; mapped = λ _. false }

no_bufs-Owned : Owned no_bufs
no_bufs-Owned = record {
  held = λ i a e. absurd (cc e);
  alone = λ i j a e e'. absurd (cc e);
  known = λ a m. absurd (cc m);
}

-- The object 0 is initialized with the address 4096, and moved to the object 1.
abbrev one_buf : Bufs
one_buf = init_buf 0 4096 no_bufs

one_buf-Owned : Owned one_buf
one_buf-Owned = BufStep-Owned (initialized 0 4096 refl refl) no_bufs-Owned

test_moved : (move_assign 1 0 one_buf).buf 1 ≡ some 4096
unfolding move_assign init_buf uninit
test_moved = refl

BufStep-Owned_example : Owned (move_assign 1 0 one_buf)
BufStep-Owned_example = BufStep-Owned (assigned 1 0) one_buf-Owned
