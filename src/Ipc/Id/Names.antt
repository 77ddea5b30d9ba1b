-- ===== src/Ipc/Id/Names.antt =====
-- What the names of id.h promise: they are legal, they are found by the clean up, they do not depend
-- on leading slashes, and ids that differ in one place have different names.
use tyndall.Base.{
  ℕ, Bool, Bytes, [], ◌∷◌, ◌++◌, length, codes, ◌≡◌, ◌≢◌, refl, sym, ap, ◌∙◌, arith, All, ne→==,
  length-append, suc,
}
use tyndall.Meta.Hash.{hash_fnv1a_32}
use tyndall.Meta.Hash.Differ.{IsByte, hash_differ}
use tyndall.Meta.Strval.{occurrences, replace, remove_leading, to_strval}
use tyndall.Meta.Strval.Laws.{
  occurrences-append, occurrences-replace, length-replace, remove_leading_idem,
}
use tyndall.Meta.Strval.Decimal.{IsDigit, decimal_value, decimal_value-to_strval}
use tyndall.Ipc.Id.{ipc_shmem_prefix, slash, underscore, id_prepare}
use tyndall.Ipc.Id.Agree.{assemble, assemble_inj, id_prepare-assemble}

no_slash_in_digits : (s : Bytes) → All IsDigit s → occurrences s slash ≡ 0
unfolding occurrences
no_slash_in_digits [] _ = refl
no_slash_in_digits (c ∷ s) (h, hs) = ground (arith, no_slash_in_digits s hs)

no_slash_in_parts :
    (n h : Bytes)
    → occurrences n slash ≡ 0
    → occurrences h slash ≡ 0
    → occurrences (assemble n h) slash ≡ 0
no_slash_in_parts n h hn hh =
    rw
      (
        occurrences-append ipc_shmem_prefix _ slash,
        occurrences-append (codes "_") _ slash,
        occurrences-append n _ slash,
        occurrences-append (codes "_") h slash,
        hn,
        hh,
      )
      (unfold occurrences in refl)

-- Whatever the id, the name can stand in /dev/shm: it holds no slash, and it begins with the prefix
-- by which `ipc_cleanup` finds it.
pub id_prepare_legal :
    (signed : Bool) (id : Bytes)
    → (occurrences (id_prepare signed id) slash ≡ 0)
      × ((rest : Bytes) × (id_prepare signed id ≡ ipc_shmem_prefix ++ rest))
id_prepare_legal signed id =
    let name = remove_leading slash id in
    let hash = hash_fnv1a_32 signed name in
    (
      rw (id_prepare-assemble signed id) (
          no_slash_in_parts _ _
            (occurrences-replace slash underscore 0 name (omega arith) (omega arith)
              (omega arith)).0
            (no_slash_in_digits _ (decimal_value-to_strval hash).1)),
      (_, id_prepare-assemble signed id),
    )

-- Slashes in front of an id make no difference.
pub id_prepare_leading :
    (signed : Bool) (id : Bytes) → id_prepare signed (slash ∷ id) ≡ id_prepare signed id
id_prepare_leading signed id = rw (
  id_prepare-assemble signed (slash ∷ id),
  id_prepare-assemble signed id,
  (remove_leading_idem slash id).1,
)

-- A text that does not begin with a slash is not stripped.
unstripped : (c : ℕ) (s : Bytes) → c ≢ slash → remove_leading slash (c ∷ s) ≡ c ∷ s
unfolding remove_leading
unstripped c s h = rw (ne→== c slash h)

to_strval_inj : (m n : ℕ) → to_strval m ≡ to_strval n → m ≡ n
to_strval_inj m n e =
    sym (decimal_value-to_strval m).0 ∙ ap decimal_value e ∙ (decimal_value-to_strval n).0

-- Names of ids of one length that are not stripped show the hashes.
same_name-same_hash :
    (signed : Bool) (c : ℕ) (s t : Bytes)
    → c ≢ slash
    → length s ≡ length t
    → id_prepare signed (c ∷ s) ≡ id_prepare signed (c ∷ t)
    → hash_fnv1a_32 signed (c ∷ s) ≡ hash_fnv1a_32 signed (c ∷ t)
same_name-same_hash signed c s t h same_length same =
    to_strval_inj _ _
      (assemble_inj _ _ _ _
        (length-replace slash underscore (c ∷ s)
          ∙ ap suc same_length
          ∙ sym (length-replace slash underscore (c ∷ t)))
        (sym (by_parts s) ∙ same ∙ by_parts t)).1
  where
    by_parts :
        (u : Bytes)
        → id_prepare signed (c ∷ u)
          ≡ assemble (replace slash underscore (c ∷ u)) (to_strval (hash_fnv1a_32 signed (c ∷ u)))
    by_parts u = rw (unstripped c u h) at (id_prepare-assemble signed (c ∷ u))

-- Two ids of bytes that begin with one and the same character, which is no slash, and differ in exactly one
-- place behind it, have different names: "my/topic" and "my_topic" do not clash.
pub id_prepare_distinct :
    (signed : Bool) (first c d : ℕ) (p t : Bytes)
    → first ≢ slash
    → IsByte c
    → IsByte d
    → All IsByte t
    → c ≢ d
    → id_prepare signed (first ∷ (p ++ c ∷ t)) ≢ id_prepare signed (first ∷ (p ++ d ∷ t))
id_prepare_distinct signed first c d p t no_slash hc hd ht ne same =
    hash_differ signed (first ∷ p) t c d hc hd ht ne (
      same_name-same_hash signed first (p ++ c ∷ t) (p ++ d ∷ t) no_slash
        (omega (arith, length-append p (c ∷ t), length-append p (d ∷ t))) same)
