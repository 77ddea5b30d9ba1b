-- ===== src/Tools/Examples/IpcRead.antt =====
-- `main` of ipc_read.cpp at concrete memories, and the theorems applied.
use tyndall.Base.{
  ap, sym, get_or, ◌+◌, ◌/◌, ℕ, zero, suc, ◌<◌, ◌≤◌, true, false, Bool-cases, inl, inr, ltb,
  if◌then◌else◌, Option, some, Bytes, [], ◌∷◌, ◌++◌, codes, length, ◌≡◌, ◌≢◌, refl, arith,
}
use tyndall.Ipc.SeqLock.{is_odd, next_seq, seq_lock_read_retry}
use tyndall.Ipc.Shmem.Create.{ShmCalls}
use tyndall.Reflect.PrintFormat.{char, int, size_of, print_format_typeid, float, unsigned_int}
use tyndall.Reflect.Reflection.{get_format, type_id, Fields, field, end, scalar, aggregate}
use tyndall.Meta.Strval.{append, is_same}
use tyndall.Tools.IpcRead.{print}
use tyndall.Tools.IpcRead.Nested.{type_align, fields_align, type_size, fields_end, c_fields}
use tyndall.Tools.IpcRead.Nested.Uniform.{uniform, uniform_fields, print-c_fields}
use tyndall.Tools.IpcRead.Nested.Padding.{padded, print-ne-c_fields}
use tyndall.Tools.IpcRead.Layout.{struct_of, fields_from}
use tyndall.Tools.IpcRead.Main.{
  by_format, shown, cacheline_bytes, ipc_seq, read_begin, copy_bytes, copy_buf, buf_size_of, main,
}
use tyndall.Tools.IpcRead.Main.Guarded.{payload, copy_buf-payload}
use tyndall.Tools.IpcRead.Main.Observed.{Steps, stay, next, Observed, IsShort, Observed-IsGuarded}
use tyndall.Ipc.SeqLock.Protocol.Invariant.{Same}
use tyndall.Ipc.SeqLock.Protocol.{
  update, Entry, nothing_done, AllDone, Writer, System, init, Reach, start, later, call_write,
  load_seq, mark, store, unmark,
}
use tyndall.Tools.IpcRead.Main.Settled.{IsSettled, copy_buf-payload_settled}
use tyndall.Tools.IpcRead.Main.Fields.{topic_image, Opens, buf_of, sleeps, main-fields_from}

abbrev zeros : ℕ → Bytes
zeros zero = []
zeros (suc n) = 0 ∷ zeros n

-- A lock with the number `seq` and an entry of one byte.
abbrev small_lock : (seq entry : ℕ) → Bytes
small_lock seq entry = seq ∷ zeros 63 ++ entry ∷ []

-- A writer works between the accesses 1 and 2.
abbrev written : ℕ → Bytes
written t = if ltb t 2 then small_lock 2 7 else small_lock 4 8

first_done : AllDone 1 (update nothing_done 0 true)
first_done j lt = ground arith

abbrev byte_of : ℕ → Entry
byte_of k j = k

abbrev write_steps : System → ℕ → System
write_steps s k = record s {
  seq = next_seq (next_seq s.seq);
  words = update s.words 0 k;
  writer = Writer.idle;
  count = s.count + 1 + 1;
  history = update s.history (s.count / 2 + 1) (byte_of k);
}

-- The entry 7 has been written, and then 8 is.
abbrev once : System
once = write_steps init 7

abbrev twice : System
twice = write_steps once 8

write_Steps : (s : System) (k : ℕ) → s.writer ≡ Writer.idle → Steps 1 s (write_steps s k)
write_Steps s k e =
    next
      (next
        (next (next (next stay (call_write (byte_of k) e)) (load_seq (byte_of k) refl))
          (mark (byte_of k) (next_seq s.seq) refl))
        (store (byte_of k) (next_seq s.seq) nothing_done 0 refl (omega arith)))
      (unmark (byte_of k) (next_seq s.seq) (update nothing_done 0 true) refl first_done)

Steps-Reach : {s t : System} → Reach 1 s → Steps 1 s t → Reach 1 t
Steps-Reach reach stay = reach
Steps-Reach reach (next steps step) = later (Steps-Reach reach steps) step

abbrev run : ℕ → System
run t = if ltb t 2 then once else twice

run-Steps : (t : ℕ) → Steps 1 (run t) (run (suc t))
run-Steps zero = stay
run-Steps (suc zero) = write_Steps once 8 refl
run-Steps (suc (suc t)) =
    let late : ltb (suc (suc t)) 2 ≡ false = ground arith in
    let later_still : ltb (suc (suc (suc t))) 2 ≡ false = ground arith in
    rw (late, later_still) stay

-- The entry stands behind the first cache line.
abbrev laid_out : Entry → ℕ → ℕ
laid_out words i = get_or (0 ∷ zeros 63 ++ words 0 ∷ []) i 0

laid_out_lem :
    (seq entry i : ℕ) (words : Entry)
    → words 0 ≡ entry
    → cacheline_bytes ≤ i
    → get_or (small_lock seq entry) i 0 ≡ laid_out words i
laid_out_lem seq entry zero words e le = absurd (omega arith)
laid_out_lem seq entry (suc i) words e le =
    ap (λ k. get_or (0 ∷ zeros 63 ++ k ∷ []) (suc i) 0) (sym e)

abbrev written-Observed : Observed 1 written
written-Observed = record {
  run = run;
  begins = Steps-Reach start (write_Steps init 7 refl);
  goes = run-Steps;
  layout = laid_out;
  number =
      λ t. elim (Bool-cases (ltb t 2)) [ inl early ↦ rw (early) refl | inr late ↦ rw (late) refl ];
  bytes = λ t i le. elim (Bool-cases (ltb t 2)) [
    | inl early ↦ rw (early) (laid_out_lem 2 7 i (run t).words (rw (early) refl) le)
    | inr late ↦ rw (late) (laid_out_lem 4 8 i (run t).words (rw (late) refl) le)
  ];
}

written-IsShort : IsShort written-Observed 0
written-IsShort u = elim (Bool-cases (ltb u 2)) [
  | inl early ↦ rw (early) (omega arith)
  | inr late ↦ rw (late) (omega arith)
]

copy_buf-payload_test :
    (moment : ℕ) × (0 ≤ moment)
    × (moment < 6)
    × (ipc_seq (written moment) ≡ 4)
    × (is_odd 4 ≡ false)
    × (8 ∷ [] ≡ payload 1 cacheline_bytes (written moment))
unfolding read_begin copy_bytes copy_buf seq_lock_read_retry
copy_buf-payload_test =
    copy_buf-payload written 2 1 0 4 6 0 (8 ∷ [])
      (Observed-IsGuarded written-Observed 0 written-IsShort) (omega arith) refl

written-IsSettled : IsSettled written 2
written-IsSettled t le = let late : ltb t 2 ≡ false = ground arith in rw (late) (refl, refl)

copy_buf-payload_settled_example :
    (seq1 : ℕ) × (copied : Bytes) × (t' : ℕ) × (copy_buf written 3 1 0 ≡ some (seq1, copied, t'))
    × (moment : ℕ) × (0 ≤ moment)
    × (moment < t')
    × (ipc_seq (written moment) ≡ seq1)
    × (copied ≡ payload 1 cacheline_bytes (written moment))
    × Same 1 (run moment).words ((run moment).history ((run moment).count / 2))
copy_buf-payload_settled_example =
    copy_buf-payload_settled written 1 2 1 0 2 written-Observed written-IsShort written-IsSettled
      (omega arith)

-- The lock of { char; int; }, written once.
abbrev structure : Bytes
structure = 2 ∷ zeros 63 ++ (codes "a" ++ zeros 63)

abbrev hash : Bytes
hash = 1 ∷ 2 ∷ 3 ∷ 4 ∷ []

abbrev image : Bytes
image = topic_image structure hash (get_format (struct_of (char ∷ int ∷ []))) (zeros 2)

-- Calls that succeed.
abbrev calls : ShmCalls ℕ
calls = record {
  shm_open = λ id w. (some 3, w);
  ftruncate = λ fd size w. (true, w);
  mmap = λ size fd w. (4096, w);
}

abbrev fstat : ℕ → ℕ → Option ℕ
fstat fd w = some (length image)

opens : Opens calls fstat (codes "/dev/shm/ipc_a") (length image) 0
opens = record {
  fd = 3;
  mapped = 4096;
  opened = 0;
  behind = 0;
  opens = refl;
  sized = refl;
  maps = refl;
  succeeds = omega arith;
  aligned = refl;
}

main-fields_from_example :
    main
      (λ _. image)
      true
      (λ _. 0)
      calls
      fstat
      (λ _. 1000)
      1
      3
      (codes "ipc_read" ∷ codes "/dev/shm/ipc_a" ∷ [])
      0
    ≡ shown (
        by_format
          (payload (buf_size_of (length image)) cacheline_bytes image)
          (fields_from (buf_of (λ _. 1000) (length image)) 0 (char ∷ int ∷ []))
        ∷ sleeps 2)
unfolding size_of get_format is_same type_id print_format_typeid append
main-fields_from_example =
    main-fields_from calls fstat true (λ _. 0) (λ _. 1000) 0 2 (codes "ipc_read")
      (codes "/dev/shm/ipc_a") structure hash (zeros 2) (char ∷ int ∷ []) 0 refl (omega arith)
      (omega arith) refl (omega arith) (omega arith) (refl, (refl, tt)) refl (omega arith) opens

-- { int; { float; { int; unsigned; } } }
abbrev nested : Fields
nested = field (scalar int) (
    field
      (aggregate
        (field (scalar float) (field (aggregate (struct_of (int ∷ unsigned_int ∷ []))) end)))
      end)

print-c_fields_example : print (λ _. 0) (get_format nested) 64 16 ≡ c_fields 64 0 nested
unfolding size_of uniform uniform_fields type_align fields_align type_size fields_end
print-c_fields_example = print-c_fields int (λ _. 0) 64 16 nested refl refl (omega arith)

-- { char; { char; int; } }
print-ne-c_fields_example :
    print (λ _. 0) (get_format (padded char char int)) 64 18 ≢ c_fields 64 0 (padded char char int)
unfolding size_of
print-ne-c_fields_example =
    print-ne-c_fields (λ _. 0) char char int 64 18 refl refl (omega arith) refl (omega arith)
