-- ===== src/Ipc/Shmem/Cleanup.antt =====
-- What the clean up of shmem.h removes, and what it leaves.
use tyndall.Base.{
  ◌∙◌, sym, ℕ, Bool, true, false, not, ◌&&◌, ◌||◌, ◌==◌, ==→eq, ne→==, eq→==, Bool-cases, some,
  Bytes, List, [], ◌∷◌, pos, char_at, drop, starts_with, starts_with-append, Lacks, ◌≡◌, refl,
  arith, inl, inr, subst,
}
use tyndall.Meta.Strval.{is_same}
use tyndall.Meta.Strval.Laws.{is_same_iff}
use tyndall.Ipc.Id.{ipc_shmem_prefix, id_prepare}
use tyndall.Ipc.Id.Names.{id_prepare_legal}
use tyndall.Ipc.Shmem.{
  c_name, has_name, DevShm, match_loop, shmem_unlink, unlink_loop, unlink_entries, shmem_unlink_all,
  ipc_cleanup,
}

match_loop-false : (prefix d : Bytes) → match_loop prefix d false ≡ false
unfolding match_loop
match_loop-false [] d = refl
match_loop-false (p ∷ prefix) d = elim (Bool-cases (char_at d == p)) [
  | inl e ↦ rw (e) (match_loop-false prefix (drop 1 d))
  | inr e ↦ rw (e) (match_loop-false prefix (drop 1 d))
]

-- A name matches if it begins with the prefix, whatever stands behind its NUL.
match_loop_lem :
    (prefix d : Bytes) → Lacks 0 prefix → match_loop prefix d true ≡ starts_with prefix (c_name d)
unfolding match_loop
match_loop_lem [] d h = refl
match_loop_lem (p ∷ prefix) [] (hp, h) =
    rw (ne→== 0 p (λ e. hp (sym e))) (match_loop-false prefix [])
match_loop_lem (p ∷ prefix) (c ∷ d) (hp, h) = elim (Bool-cases (c == 0)) [
  | inl e ↦
      let c_zero : c ≡ 0 = ==→eq c 0 e in
      rw (e, ne→== c p (λ q. hp (sym q ∙ c_zero))) (match_loop-false prefix d)
  | inr e ↦ elim (Bool-cases (c == p)) [
    | inl q ↦
        let same : c ≡ p = ==→eq c p q in
        rw (e, q, eq→== p c (sym same)) (match_loop_lem prefix d h)
    | inr q ↦
        let other : (p == c) ≡ false = ground arith in rw (e, q, other) (match_loop-false prefix d)
  ]
]

none_listed : (x p : Bool) → x ≡ (x && not (p && false))
none_listed true true = refl
none_listed true false = refl
none_listed false p = refl

-- `x`: there is the name; `p`: it has the prefix; `s`: the entry names it; `h`: a later one does.
entry_removed :
    (x p s h : Bool)
    → (s ≡ true → p ≡ true)
    → ((x && not s) && not (p && h)) ≡ (x && not (p && (s || h)))
entry_removed false p s h only = refl
entry_removed true true true h only = refl
entry_removed true true false h only = refl
entry_removed true false true h only = absurd (cc (only refl))
entry_removed true false false h only = refl

entry_kept :
    (x p s h : Bool) → (s ≡ true → p ≡ false) → (x && not (p && h)) ≡ (x && not (p && (s || h)))
entry_kept false p s h only = refl
entry_kept true true true h only = absurd (cc (only refl))
entry_kept true true false h only = refl
entry_kept true false s h only = refl

-- A test for `Lacks`.
lacks : ℕ → Bytes → Bool
lacks c [] = true
lacks c (d ∷ s) = not (d == c) && lacks c s

lacks-Lacks : (c : ℕ) (s : Bytes) → lacks c s ≡ true → Lacks c s
unfolding lacks
lacks-Lacks c [] h = tt
lacks-Lacks c (d ∷ s) h = (ground arith, lacks-Lacks c s (ground arith))

prefix-Lacks : Lacks 0 ipc_shmem_prefix
unfolding lacks
prefix-Lacks = lacks-Lacks 0 ipc_shmem_prefix refl

module _ {ℓ} {W : Type ℓ} (os : DevShm W) where
  unlink_loop_lem :
      (prefix : Bytes) (entries : List Bytes) (m : Bytes) (w : W)
      → Lacks 0 prefix
      → os.exists m (unlink_loop os prefix entries w)
        ≡ (os.exists m w && not (starts_with prefix m && has_name m entries))
  unfolding unlink_loop shmem_unlink
  unlink_loop_lem prefix [] m w h = none_listed (os.exists m w) (starts_with prefix m)
  unlink_loop_lem prefix (e ∷ entries) m w h = elim (Bool-cases (starts_with prefix (c_name e))) [
    | inl begins ↦
        rw
          (
            match_loop_lem prefix e h,
            begins,
            unlink_loop_lem prefix entries m (os.shm_unlink (c_name e) w) h,
            os.unlinks (c_name e) m w,
          )
          (entry_removed (os.exists m w) (starts_with prefix m) (is_same m (c_name e))
            (has_name m entries)
            (λ same.
              subst (λ n. starts_with prefix n ≡ true) (sym ((is_same_iff m (c_name e)).0 same))
                begins))
    | inr differs ↦
        rw (match_loop_lem prefix e h, differs, unlink_loop_lem prefix entries m w h)
          (entry_kept (os.exists m w) (starts_with prefix m) (is_same m (c_name e))
            (has_name m entries)
            (λ same.
              subst (λ n. starts_with prefix n ≡ false) (sym ((is_same_iff m (c_name e)).0 same))
                differs))
  ]

  entries_lem :
      (prefix : Bytes) (w : W) (entries : List Bytes) (m : Bytes)
      → Lacks 0 prefix
      → os.opendir w ≡ some entries
      → ((unlink_entries os prefix (some entries) w).0 ≡ pos 0)
        × (os.exists m (unlink_entries os prefix (some entries) w).1
            ≡ (os.exists m w && not (starts_with prefix m)))
  unfolding unlink_entries
  entries_lem prefix w entries m h opened = (
    refl,
    unlink_loop_lem prefix entries m w h ∙ elim (Bool-cases (os.exists m w)) [
      | inl there ↦
          rw (there, os.lists w entries m opened there) (also_listed (starts_with prefix m))
      | inr missing ↦ rw (missing)
    ],
  )
    where
      also_listed : (p : Bool) → not (p && true) ≡ not p
      also_listed true = refl
      also_listed false = refl

  -- If the directory can be opened, `shmem_unlink_all` returns 0 and removes the shared memories whose
  -- name begins with the prefix, all of them and no other.
  pub shmem_unlink_all_lem :
      (prefix : Bytes) (w : W) (entries : List Bytes) (m : Bytes)
      → Lacks 0 prefix
      → os.opendir w ≡ some entries
      → ((shmem_unlink_all os prefix w).0 ≡ pos 0)
        × (os.exists m (shmem_unlink_all os prefix w).1
            ≡ (os.exists m w && not (starts_with prefix m)))
  unfolding shmem_unlink_all
  shmem_unlink_all_lem prefix w entries m h opened =
      rw (opened) (entries_lem prefix w entries m h opened)

  -- After an `ipc_cleanup` that could open the directory no topic has a shared memory, whatever its id.
  pub ipc_cleanup-id_prepare :
      (w : W) (entries : List Bytes) (signed : Bool) (id : Bytes)
      → os.opendir w ≡ some entries
      → os.exists (id_prepare signed id) (ipc_cleanup os w).1 ≡ false
  unfolding ipc_cleanup
  ipc_cleanup-id_prepare w entries signed id opened =
      let (rest, named) = (id_prepare_legal signed id).1 in
      let begins : starts_with ipc_shmem_prefix (id_prepare signed id) ≡ true =
        rw (named) (starts_with-append ipc_shmem_prefix rest) in
      (shmem_unlink_all_lem ipc_shmem_prefix w entries (id_prepare signed id) prefix-Lacks opened).1
      ∙ rw (begins) (never (os.exists (id_prepare signed id) w))
    where
      never : (b : Bool) → (b && false) ≡ false
      never true = refl
      never false = refl
