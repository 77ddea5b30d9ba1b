-- ===== src/Ipc/Examples/System.antt =====
-- A system with 1024 descriptors, which takes names of at most 255 bytes.
use tyndall.Base.{
  ℕ, suc, ◌+◌, ◌*◌, ◌≤◌, ltb, leb, true, if◌then◌else◌, none, some, length, codes, refl, arith,
}
use tyndall.Meta.Hash.{hash_fnv1a_32}
use tyndall.Meta.Strval.{append, replace, remove_leading, to_strval}
use tyndall.Meta.Strval.Printer.{printer, print}
use tyndall.Ipc.Id.{
  id_prepare, id_rtid_prepare, id_replace_slashes_with_underscores, id_remove_leading_slashes,
  id_hash,
}
use tyndall.Ipc.Shmem.Create.{ShmCalls}
use tyndall.Ipc.Bus.{Platform}
use tyndall.Ipc.Bus.Opens.{Opens}

-- The state is the number of descriptors in use.
abbrev calls : ShmCalls ℕ
calls = record {
  shm_open = λ name w.
      if leb (length name) 255
      then (if ltb w 1024 then (some w, suc w) else (none, w))
      else (none, w);
  ftruncate = λ fd size w. (true, w);
  mmap = λ size fd w. (w * 4096, w);
}

abbrev pub platform : Platform ℕ
platform = record { os = calls; page_size = 4096; cacheline_bytes = 64; size = 192; type_hash = 5 }

abbrev pub opens : Opens platform
opens = record {
  Usable = λ name. length name ≤ 255;
  Room = λ n w. n + w ≤ 1024;
  spared = λ n w room. omega arith;
  shm_open = λ n name w usable room. (w, suc w, ground arith, omega arith);
  ftruncate = λ n fd w room. (w, refl, room);
  mmap = λ n fd w room. (w, w, refl, omega arith, room);
  lines = 64;
  page_lines = refl;
}

-- The names of the topics are short enough.
pub my_topic_short : length (id_prepare true (codes "/my/topic")) ≤ 255
unfolding id_prepare append id_replace_slashes_with_underscores replace id_remove_leading_slashes
    remove_leading id_hash to_strval hash_fnv1a_32
my_topic_short = omega arith

pub other_short :
    (length (id_rtid_prepare printer true (codes "other")) ≤ 255)
    × (length (id_rtid_prepare printer true (codes "/other")) ≤ 255)
unfolding id_rtid_prepare hash_fnv1a_32 printer print to_strval
other_short = (omega arith, omega arith)
