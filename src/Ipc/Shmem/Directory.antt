-- ===== src/Ipc/Shmem/Directory.antt =====
-- A directory of shared memories that behaves as POSIX documents: what DevShm assumes can be met.
use tyndall.Base.{
  Bool, true, false, not, ◌&&◌, ◌||◌, if◌then◌else◌, Bool-cases, inl, inr, some, Bytes, List, [],
  ◌∷◌, ◌≡◌, refl, sym, subst, ◌∙◌,
}
use tyndall.Meta.Strval.{is_same}
use tyndall.Meta.Strval.Laws.{is_same_iff}
use tyndall.Ipc.Shmem.{c_name, has_name, DevShm}

-- A directory that is the list of its entries.
unfoldable pub remove : Bytes → List Bytes → List Bytes
remove name [] = []
remove name (e ∷ entries) =
    let rest = remove name entries in if is_same name (c_name e) then rest else e ∷ rest

gone : (s h : Bool) → (h && not s) ≡ ((s || h) && not s)
gone true true = refl
gone true false = refl
gone false h = refl

stays : (s' h s : Bool) → (s' ≡ true → s ≡ false) → (s' || (h && not s)) ≡ ((s' || h) && not s)
stays true h true only = absurd (cc (only refl))
stays true h false only = refl
stays false h s only = refl

different :
    (m name e : Bytes) → is_same name e ≡ false → is_same m e ≡ true → is_same m name ≡ false
different m name e ne same = elim (Bool-cases (is_same m name)) [
  | inl q ↦
      let m_e : m ≡ e = (is_same_iff m e).0 same in
      let m_name : m ≡ name = (is_same_iff m name).0 q in
      absurd (cc (sym ne ∙ (is_same_iff name e).1 (sym m_name ∙ m_e)))
  | inr q ↦ q
]

pub has_name-remove :
    (name m : Bytes) (entries : List Bytes)
    → has_name m (remove name entries) ≡ (has_name m entries && not (is_same m name))
unfolding remove
has_name-remove name m [] = refl
has_name-remove name m (e ∷ entries) = elim (Bool-cases (is_same name (c_name e))) [
  | inl same ↦
      let e_name : name ≡ c_name e = (is_same_iff name (c_name e)).0 same in
      rw (same, has_name-remove name m entries)
        (subst
          (λ n.
            (has_name m entries && not (is_same m name))
            ≡ ((is_same m n || has_name m entries) && not (is_same m name)))
          e_name (gone (is_same m name) (has_name m entries)))
  | inr ne ↦
      rw (ne, has_name-remove name m entries)
        (stays (is_same m (c_name e)) (has_name m entries) (is_same m name)
          (different m name (c_name e) ne))
]

unfoldable pub directory : DevShm (List Bytes)
unfolding remove
directory = record {
  exists = has_name;
  opendir = λ w. some w;
  shm_unlink = remove;
  unlinks = has_name-remove;
  lists = λ w entries m opened there. subst (λ es. has_name m es ≡ true) (cc) there;
}
