-- ===== src/Ipc/Examples/Race.antt =====
-- Processes that open one memory at once, and the theorem applied.
use tyndall.Base.{ltb, ℕ, zero, suc, ◌+◌, ◌==◌, if◌then◌else◌, true, Bytes, ◌∷◌, ◌++◌, codes}
use tyndall.Meta.Typeinfo.{
  CppType, plain, const_of, volatile_of, lvalue_reference, rvalue_reference, typeinfo_hash,
}
use tyndall.Ipc.SeqLock.Protocol.{update}
use tyndall.Ipc.Shmem.{smp_cmp_xch}
use tyndall.Ipc.Shmem.TypeCheck.Race.{Opening, refused, passed, aborted, unopened}

-- The text of a type ends in its letter.
abbrev text_of : CppType → Bytes
text_of (plain n) = codes "hash() [with Type = " ++ (65 + n) ∷ codes "]"
text_of (const_of t) = codes "const"
text_of (volatile_of t) = codes "volatile"
text_of (lvalue_reference t) = codes "&"
text_of (rvalue_reference t) = codes "&&"

abbrev types : ℕ → CppType
types zero = plain 0
types (suc zero) = plain 1
types (suc (suc n)) = lvalue_reference (const_of (plain 0))

abbrev hash_at : ℕ → ℕ
hash_at n = typeinfo_hash true text_of (types n)

-- The data structures of the processes 0 to 2 have one size.
abbrev size_at : ℕ → ℕ
size_at n = if ltb n 3 then 128 else 192

abbrev exchanged : ℕ → Opening → Opening
exchanged i s = record s {
  th = update s.th (size_at i) (smp_cmp_xch (s.th (size_at i)) 0 (hash_at i)).0;
  opener =
      update s.opener i
        (if (smp_cmp_xch (s.th (size_at i)) 0 (hash_at i)).1 then passed else refused);
}

abbrev compared : ℕ → Opening → Opening
compared i s = record s {
  opener = update s.opener i (if s.th (size_at i) == hash_at i then passed else aborted);
}

-- The process 1 is refused, 2 is refused by the exchange and let in by the comparison.
abbrev race : Opening
race = compared 2 (compared 1 (exchanged 2 (exchanged 1 (exchanged 0 unopened))))
