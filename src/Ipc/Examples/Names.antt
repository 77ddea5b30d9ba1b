-- ===== src/Ipc/Examples/Names.antt =====
-- id.h at concrete ids.
use tyndall.Base.{true, ◌∷◌, ◌++◌, codes, Bytes, some, none, false, ◌≡◌, ◌≢◌, refl, arith}
use tyndall.Meta.Hash.{hash_fnv1a_32}
use tyndall.Meta.Strval.{occurrences, append, replace, remove_leading, to_strval}
use tyndall.Meta.Strval.Printer.{printer}
use tyndall.Ipc.Id.{
  ipc_shmem_prefix, slash, id_remove_leading_slashes, id_replace_slashes_with_underscores, id_hash,
  id_prepare, id_rtid_prepare,
}
use tyndall.Ipc.Objects.{
  can_write, can_read, construct_named, ipc_writer, ipc_reader, create_ipc_writer,
  create_ipc_reader, create_ipc_rtid_writer, create_ipc_rtid_reader,
}
use tyndall.Ipc.Objects.Agree.{create_ipc_rtid_writer-create_ipc_writer}
use tyndall.Ipc.Id.Agree.{id_rtid_prepare-id_prepare, id_rtid_prepare-ne-id_prepare}
use tyndall.Ipc.Id.Names.{id_prepare_legal, id_prepare_leading, id_prepare_distinct}

abbrev topic : Bytes
topic = codes "/my/topic"

-- The name that README.md prints.
topic_name :
    id_prepare true topic ≡ codes "ipc1ef42bc4e0bbfeb0ac34bc3642732768cf6f77b7_my_topic_891174619"
unfolding id_prepare append id_replace_slashes_with_underscores replace id_remove_leading_slashes
    remove_leading id_hash to_strval hash_fnv1a_32
topic_name = refl

id_rtid_prepare-id_prepare_test : id_rtid_prepare printer true topic ≡ id_prepare true topic
unfolding id_remove_leading_slashes remove_leading hash_fnv1a_32
id_rtid_prepare-id_prepare_test = id_rtid_prepare-id_prepare printer true topic (omega arith)

-- The FNV-1a hash of this id is 0.
abbrev zero_topic : Bytes
zero_topic = codes "/amgtda/"

id_rtid_prepare-ne-id_prepare_example :
    id_rtid_prepare printer true zero_topic ≢ id_prepare true zero_topic
unfolding id_remove_leading_slashes remove_leading hash_fnv1a_32
id_rtid_prepare-ne-id_prepare_example = id_rtid_prepare-ne-id_prepare printer true zero_topic refl

id_prepare_legal_test :
    (occurrences (id_prepare true topic) slash ≡ 0)
    × ((rest : Bytes) × (id_prepare true topic ≡ ipc_shmem_prefix ++ rest))
id_prepare_legal_test = id_prepare_legal true topic

id_prepare_leading_test : id_prepare true (slash ∷ topic) ≡ id_prepare true topic
id_prepare_leading_test = id_prepare_leading true topic

id_prepare_distinct_example :
    id_prepare true (codes "my/topic") ≢ id_prepare true (codes "my_topic")
id_prepare_distinct_example =
    id_prepare_distinct true b'm' slash b'_' (codes "y") (codes "topic") (omega arith) (omega arith)
      (omega arith) (omega arith) (omega arith)

create_ipc_rtid_writer-create_ipc_writer_example :
    (name : Bytes) × (create_ipc_writer true topic ≡ some (some name))
    × (create_ipc_reader true topic ≡ some (some name))
    × (create_ipc_rtid_writer printer true topic ≡ some name)
    × (create_ipc_rtid_reader printer true topic ≡ some name)
    × (construct_named (ipc_writer true topic) (codes "other") ≡ none)
    × (construct_named (ipc_reader true topic) (codes "other") ≡ none)
    × (can_write (ipc_writer true topic) ≡ true)
    × (can_read (ipc_writer true topic) ≡ false)
    × (can_write (ipc_reader true topic) ≡ false)
    × (can_read (ipc_reader true topic) ≡ true)
unfolding id_remove_leading_slashes remove_leading hash_fnv1a_32
create_ipc_rtid_writer-create_ipc_writer_example =
    create_ipc_rtid_writer-create_ipc_writer printer true topic (codes "other") (omega arith)
