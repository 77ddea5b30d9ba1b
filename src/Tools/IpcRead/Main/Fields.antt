-- ===== src/Tools/IpcRead/Main/Fields.antt =====
-- ipc_read on a topic that shmem.h made: it finds the format, and shows the fields.
use tyndall.Base.{
  ◌∙◌, ap, sym, ℕ, zero, suc, ◌+◌, ◌-◌, ◌%◌, ◌^◌, ◌<◌, ◌≤◌, Bool, true, false, eq→==, ne→==, ltb,
  Option, none, some, Bytes, List, [], ◌∷◌, ◌++◌, length, length-append, append_assoc, drop-append,
  All, Lacks, char_at, ◌≡◌, ◌≢◌, refl, arith,
}
use tyndall.Ipc.SeqLock.{is_odd, seq_lock_read_retry}
use tyndall.Ipc.Shmem.{c_name}
use tyndall.Ipc.Shmem.Create.{ShmCalls, map_failed}
use tyndall.Reflect.PrintFormat.{
  Scalar, bool, float, double, int, unsigned_int, short, unsigned_short, char, unsigned_char, long,
  unsigned_long, long_long, unsigned_long_long, print_format_typeid,
}
use tyndall.Reflect.Reflection.{get_format}
use tyndall.Tools.IpcRead.{print}
use tyndall.Tools.IpcRead.Layout.{
  struct_of, fields_from, end_from, get_format_step, get_format_end, print-get_format,
}
use tyndall.Tools.IpcRead.Main.{
  Output, by_format, slept, shown, exit_of, cacheline_bytes, ipc_seq, read_begin, copy_bytes,
  copy_buf, buf_size_of, align_buf, strip_prefix, debug_format, main_round, main_loop, main_mapped,
  main_sized, main_opened, main,
}
use tyndall.Tools.IpcRead.Main.Guarded.{payload}

-- The C string at the start of bytes where only NULs follow the text.
c_name-append : (s pad : Bytes) → Lacks 0 s → All (λ b. b ≡ 0) pad → c_name (s ++ pad) ≡ s
c_name-append [] [] _ _ = refl
c_name-append [] (b ∷ pad) _ (zeroed, _) = rw (zeroed) refl
c_name-append (c ∷ s) pad (printable, h) nuls = rw (ne→== c 0 printable, c_name-append s pad h nuls)

typeid_printable : (t : Scalar) → char_at (print_format_typeid t) ≢ 0
unfolding print_format_typeid
typeid_printable bool = omega arith
typeid_printable float = omega arith
typeid_printable double = omega arith
typeid_printable int = omega arith
typeid_printable unsigned_int = omega arith
typeid_printable short = omega arith
typeid_printable unsigned_short = omega arith
typeid_printable char = omega arith
typeid_printable unsigned_char = omega arith
typeid_printable long = omega arith
typeid_printable unsigned_long = omega arith
typeid_printable long_long = omega arith
typeid_printable unsigned_long_long = omega arith

get_format-Lacks : (ts : List Scalar) → Lacks 0 (get_format (struct_of ts))
get_format-Lacks [] = rw (get_format_end) tt
get_format-Lacks (t ∷ ts) = rw (get_format_step t ts) (typeid_printable t, get_format-Lacks ts)

align_buf-aligned : (buf : ℕ) → align_buf buf % cacheline_bytes ≡ 0
unfolding align_buf
align_buf-aligned buf = ground arith

-- Where the buffer stands.
abbrev pub buf_of : (malloc : ℕ → ℕ) → ℕ → ℕ
buf_of malloc size = align_buf (malloc ((buf_size_of size + cacheline_bytes) % 2 ^ 64))

abbrev pub sleeps : ℕ → List Output
sleeps zero = []
sleeps (suc rounds) = slept ∷ sleeps rounds

-- A shared memory as `init` leaves it: the structure with its lock, and the tailer with the hash and
-- the format, filled up with bytes that are 0.
abbrev pub topic_image : (structure hash format pad : Bytes) → Bytes
topic_image structure hash format pad = structure ++ (hash ++ (format ++ pad))

module _ (structure hash format pad : Bytes) where
  abbrev image : Bytes
  image = topic_image structure hash format pad

  length-image : length image ≡ length structure + (length hash + (length format + length pad))
  length-image = omega (
    arith,
    length-append structure (hash ++ (format ++ pad)),
    length-append hash (format ++ pad),
    length-append format pad,
  )

  -- The format is found from the size of the memory alone.
  debug_format-topic_image :
      (t : ℕ)
      → length structure % cacheline_bytes ≡ 0
      → length hash ≡ 4
      → 0 < length format + length pad
      → length hash + (length format + length pad) < cacheline_bytes
      → Lacks 0 format
      → All (λ b. b ≡ 0) pad
      → debug_format (λ _. image) (length image) t ≡ some format
  unfolding debug_format
  debug_format-topic_image t whole four something fits printable nuls =
      let tail : length image % cacheline_bytes ≡ 4 + (length format + length pad) =
        omega (arith, length-image) in
      let larger : ltb 4 (length image % cacheline_bytes) ≡ true = ground (arith, tail) in
      let place : length image - (length image % cacheline_bytes - 4) ≡ length (structure ++ hash) =
        omega (arith, length-image, length-append structure hash, tail) in
      let split : image ≡ (structure ++ hash) ++ (format ++ pad) =
        sym (append_assoc structure hash (format ++ pad)) in
      rw (
        larger,
        place,
        split,
        drop-append (structure ++ hash) (format ++ pad),
        c_name-append format pad printable nuls,
      )

module _ (image : Bytes) where
  copy_bytes-payload : (size at t : ℕ) → copy_bytes (λ _. image) size at t ≡ payload size at image
  unfolding copy_bytes
  copy_bytes-payload zero at t = refl
  copy_bytes-payload (suc size) at t = rw (copy_bytes-payload size (suc at) (suc t))

  copy_buf_quiet :
      (fuel size t : ℕ)
      → is_odd (ipc_seq image) ≡ false
      → copy_buf (λ _. image) (suc fuel) size t
        ≡ some (ipc_seq image, payload size cacheline_bytes image, suc (suc t + size))
  unfolding copy_buf read_begin seq_lock_read_retry
  copy_buf_quiet fuel size t even =
      rw
        (
          even,
          eq→== (ipc_seq image) (ipc_seq image) refl,
          copy_bytes-payload size cacheline_bytes (suc t),
        )
        refl

  module _ (signed : Bool) (strlen_at : ℕ → ℕ) where
    main_loop_seen :
        (fuel rounds : ℕ) (format : Option Bytes) (ipc_size buf t : ℕ)
        → is_odd (ipc_seq image) ≡ false
        → main_loop
            (λ _. image)
            signed
            strlen_at
            (suc fuel)
            rounds
            format
            ipc_size
            buf
            (ipc_seq image)
            t
          ≡ some (sleeps rounds)
    unfolding main_loop main_round
    main_loop_seen fuel zero format ipc_size buf t even = refl
    main_loop_seen fuel (suc rounds) format ipc_size buf t even = rw (
      copy_buf_quiet fuel (buf_size_of ipc_size) t even,
      eq→== (ipc_seq image) (ipc_seq image) refl,
      main_loop_seen fuel rounds format ipc_size buf (suc (suc t + buf_size_of ipc_size)) even,
    )

    main_loop_new :
        (fuel rounds : ℕ) (ipc_size buf : ℕ) (fmt : Bytes)
        → is_odd (ipc_seq image) ≡ false
        → ipc_seq image ≢ 0
        → ((t : ℕ) → debug_format (λ _. image) ipc_size t ≡ some fmt)
        → main_loop (λ _. image) signed strlen_at (suc fuel) (suc rounds) none ipc_size buf 0 0
          ≡ some (
              by_format
                (payload (buf_size_of ipc_size) cacheline_bytes image)
                (print strlen_at fmt buf (buf_size_of ipc_size))
              ∷ sleeps rounds)
    unfolding main_loop main_round
    main_loop_new fuel rounds ipc_size buf fmt even new found = rw (
      copy_buf_quiet fuel (buf_size_of ipc_size) 0 even,
      ne→== (ipc_seq image) 0 new,
      main_loop_seen fuel rounds none ipc_size buf (suc (suc 0 + buf_size_of ipc_size)) even,
      found (suc (suc 0 + buf_size_of ipc_size)),
    )

module _ {ℓ} {W : Type ℓ} (os : ShmCalls W) (fstat : ℕ → W → Option ℕ) where
  -- The calls that open and map a memory of that name and size succeed.
  pub record Opens (ipc_id : Bytes) (size : ℕ) (w : W) : Type ℓ where
    pub fd : ℕ
    pub mapped : ℕ
    pub opened : W
    pub behind : W
    pub opens : os.shm_open (strip_prefix ipc_id) w ≡ (some fd, opened)
    pub sized : fstat fd opened ≡ some size
    pub maps : os.mmap size fd opened ≡ (mapped, behind)
    pub succeeds : mapped ≢ map_failed
    pub aligned : mapped % cacheline_bytes ≡ 0

  module _ (signed : Bool) (strlen_at malloc : ℕ → ℕ) (memory : ℕ → Bytes) where
    main-Opens :
        (fuel rounds : ℕ) (program ipc_id : Bytes) (size : ℕ) (w : W)
        → Opens ipc_id size w
        → main memory signed strlen_at os fstat malloc fuel rounds (program ∷ ipc_id ∷ []) w
          ≡ exit_of
              (main_loop memory signed strlen_at fuel rounds none size (buf_of malloc size) 0 0)
    unfolding main main_opened main_sized main_mapped
    main-Opens fuel rounds program ipc_id size w h = rw (
      h.opens,
      h.sized,
      h.maps,
      ne→== h.mapped map_failed h.succeeds,
      eq→== (h.mapped % cacheline_bytes) 0 h.aligned,
    )

  -- ipc_read without a format, on a topic of a struct of basic types that has been written and is not
  -- written any more: in the first round it finds the format in the tailer and shows every field with
  -- the conversion of its type, from the address where C places it in the copy, and then it sleeps.
  -- The conditions: the memory can be opened and mapped, it has the layout that `init` gives it, its
  -- number is even and not 0, the struct fits in front of the tailer, and the sizes do not overflow.
  pub main-fields_from :
      (signed : Bool) (strlen_at malloc : ℕ → ℕ) (fuel rounds : ℕ)
      (program ipc_id structure hash pad : Bytes) (ts : List Scalar) (w : W)
      → length structure % cacheline_bytes ≡ 0
      → cacheline_bytes + end_from 0 ts ≤ length structure
      → length structure < 2 ^ 63
      → length hash ≡ 4
      → 4 ≤ length (get_format (struct_of ts)) + length pad
      → length hash + (length (get_format (struct_of ts)) + length pad) < cacheline_bytes
      → All (λ b. b ≡ 0) pad
      → is_odd (ipc_seq (topic_image structure hash (get_format (struct_of ts)) pad)) ≡ false
      → ipc_seq (topic_image structure hash (get_format (struct_of ts)) pad) ≢ 0
      → Opens ipc_id (length (topic_image structure hash (get_format (struct_of ts)) pad)) w
      → let image = topic_image structure hash (get_format (struct_of ts)) pad in
        let buf = buf_of malloc (length image) in
        main
          (λ _. image)
          signed
          strlen_at
          os
          fstat
          malloc
          (suc fuel)
          (suc rounds)
          (program ∷ ipc_id ∷ [])
          w
        ≡ shown (
            by_format
              (payload (buf_size_of (length image)) cacheline_bytes image)
              (fields_from buf 0 ts)
            ∷ sleeps rounds)
  unfolding buf_size_of
  main-fields_from signed strlen_at malloc fuel rounds program ipc_id structure hash pad ts w whole
        room small four something fits nuls even new h =
      let format = get_format (struct_of ts) in
      let image = topic_image structure hash format pad in
      let size = length image in
      let buf = buf_of malloc size in
      main-Opens signed strlen_at malloc (λ _. image) (suc fuel) (suc rounds) program ipc_id size w
        h
      ∙ ap exit_of (
          main_loop_new image signed strlen_at fuel rounds size buf format even new (λ t.
            debug_format-topic_image structure hash format pad t whole four (omega arith) fits
              (get_format-Lacks ts) nuls)
          ∙ ap
              (λ events. some (
                by_format (payload (buf_size_of size) cacheline_bytes image) events
                ∷ sleeps rounds))
              (print-get_format strlen_at buf (buf_size_of size) ts
                (omega (
                  arith,
                  align_buf-aligned (malloc ((buf_size_of size + cacheline_bytes) % 2 ^ 64)),
                ))
                (omega (arith, length-image structure hash format pad))))
