-- ===== src/Ipc/Shmem/TypeCheck.antt =====
-- The check of the type in `init` of shmem.h, by processes that open one shared memory in turn.
pub mod Race
use mathlib.Core.List.{map}
use tyndall.Base.{
  ◌∙◌, sym, ap, ℕ, zero, suc, ◌<◌, arith, Bool, true, ◌==◌, ==→eq, ne→==, Bool-cases, inl, inr,
  Bytes, get_elem?, some, All, List, [], ◌∷◌, ◌++◌, ◌≡◌, ◌≢◌, refl,
}
use tyndall.Meta.Hash.{hash_fnv1a_32}
use tyndall.Meta.Hash.Differ.{IsByte, hash_differ}
use tyndall.Meta.Typeinfo.{CppType, typeinfo_raw, typeinfo_remove_cvref, typeinfo_hash}
use tyndall.Ipc.Shmem.{smp_cmp_xch, init_tailer}

-- Whether the assertion holds in each of the calls, with the hashes given, in the order of their
-- exchanges; `th` is the hash that the first finds.
unfoldable pub init_all : List ℕ → ℕ → List Bool
init_all [] th = []
init_all (type_hash ∷ hashes) th =
    let (th', holds) = init_tailer type_hash th in holds ∷ init_all hashes th'

tagged : (hashes : List ℕ) (th : ℕ) → th ≢ 0 → init_all hashes th ≡ map (λ k. th == k) hashes
unfolding init_all init_tailer smp_cmp_xch
tagged [] th h = refl
tagged (k ∷ hashes) th h = rw (ne→== th 0 h, tagged hashes th h)

-- Of the processes that open fresh shared memory (its bytes are 0) the first is let in, if its type's
-- hash is not 0, and of the others just those with the same hash.
pub init_all_lem :
    (type_hash : ℕ) (hashes : List ℕ)
    → type_hash ≢ 0
    → init_all (type_hash ∷ hashes) 0 ≡ true ∷ map (λ k. type_hash == k) hashes
unfolding init_all init_tailer smp_cmp_xch
init_all_lem type_hash hashes h = rw (tagged hashes type_hash h)

pub some_inj {ℓ} : {A : Type ℓ} {x y : A} → some x ≡ some y → x ≡ y
some_inj e = cc

let_in_again :
    (hashes : List ℕ) (th j h : ℕ)
    → get_elem? hashes j ≡ some h
    → get_elem? (map (λ k. th == k) hashes) j ≡ some true
    → th ≡ h
let_in_again [] th j h at_j e = absurd (cc at_j)
let_in_again (k ∷ hashes) th zero h at_j e = ==→eq th k (some_inj e) ∙ some_inj at_j
let_in_again (k ∷ hashes) th (suc j) h at_j e = let_in_again hashes th j h at_j e

-- What the memory holds behind a process that is let in.
init_tailer_claims : (k th : ℕ) → (init_tailer k th).1 ≡ true → (init_tailer k th).0 ≡ k
unfolding init_tailer smp_cmp_xch
init_tailer_claims k th holds = elim (Bool-cases (th == 0)) [
  | inl e ↦ rw (e)
  | inr e ↦ rw (e) (==→eq th k (rw (e) at holds))
]

let_in_both :
    (hashes : List ℕ) (th i j g h : ℕ)
    → i < j
    → get_elem? hashes i ≡ some g
    → get_elem? hashes j ≡ some h
    → g ≢ 0
    → get_elem? (init_all hashes th) i ≡ some true
    → get_elem? (init_all hashes th) j ≡ some true
    → g ≡ h
unfolding init_all
let_in_both [] th i j g h lt at_i at_j ne in_i in_j = absurd (cc at_i)
let_in_both (k ∷ hashes) th i zero g h lt at_i at_j ne in_i in_j = absurd (omega arith)
let_in_both (k ∷ hashes) th zero (suc j) g h lt at_i at_j ne in_i in_j =
    let claimed : (init_tailer k th).0 ≡ g =
      init_tailer_claims k th (some_inj in_i) ∙ some_inj at_i in
    let_in_again hashes g j h at_j (rw (claimed, tagged hashes g ne) at in_j)
let_in_both (k ∷ hashes) th (suc i) (suc j) g h lt at_i at_j ne in_i in_j =
    let_in_both hashes (init_tailer k th).0 i j g h (omega arith) at_i at_j ne in_i in_j

get_elem?-map :
    {A : Type 0} (f : A → ℕ) (xs : List A) (i : ℕ) (x : A)
    → get_elem? xs i ≡ some x
    → get_elem? (map f xs) i ≡ some (f x)
get_elem?-map f [] i x e = absurd (cc e)
get_elem?-map f (y ∷ xs) zero x e = ap (λ z. some (f z)) (some_inj e)
get_elem?-map f (y ∷ xs) (suc i) x e = get_elem?-map f xs i x e

-- Of the processes that open one memory in turn, with data structures of one size, whatever it held before, no two are let in whose types
-- have texts that differ in exactly one byte, if the hash of the earlier one is not 0. References and
-- qualifiers of a type do not count.
pub init_all-typeinfo_hash :
    (signed : Bool) (pretty_function : CppType → Bytes) (types : List CppType) (th i j : ℕ)
    (t u : CppType) (p r : Bytes) (c d : ℕ)
    → i < j
    → get_elem? types i ≡ some t
    → get_elem? types j ≡ some u
    → pretty_function (typeinfo_remove_cvref t) ≡ p ++ c ∷ r
    → pretty_function (typeinfo_remove_cvref u) ≡ p ++ d ∷ r
    → IsByte c
    → IsByte d
    → All IsByte r
    → c ≢ d
    → typeinfo_hash signed pretty_function t ≢ 0
    → get_elem? (init_all (map (typeinfo_hash signed pretty_function) types) th) i ≡ some true
    → get_elem? (init_all (map (typeinfo_hash signed pretty_function) types) th) j ≢ some true
unfolding typeinfo_hash typeinfo_raw hash_fnv1a_32
init_all-typeinfo_hash signed pretty_function types th i j t u p r c d lt at_i at_j text_t text_u
      byte_c byte_d bytes other ne in_i in_j =
    let hash = typeinfo_hash signed pretty_function in
    let same : hash t ≡ hash u =
      let_in_both (map hash types) th i j (hash t) (hash u) lt (get_elem?-map hash types i t at_i)
        (get_elem?-map hash types j u at_j) ne in_i in_j in
    hash_differ signed p r c d byte_c byte_d bytes other
      (sym (ap (hash_fnv1a_32 signed) text_t) ∙ same ∙ ap (hash_fnv1a_32 signed) text_u)
