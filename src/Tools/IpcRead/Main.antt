-- ===== src/Tools/IpcRead/Main.antt =====
-- tools/ipc_read.cpp: `main`, on memory that others write while it reads.
pub mod Guarded
pub mod Observed
pub mod Settled
pub mod Fields
use tyndall.Base.{
  ℕ, zero, suc, ◌+◌, ◌-◌, ◌*◌, ◌%◌, ◌^◌, Bool, true, false, not, if◌then◌else◌, ◌==◌, ltb, Option,
  none, some, bind, Bytes, List, [], ◌∷◌, codes, drop, get_or, starts_with,
}
use mathlib.Core.List.{map}
use tyndall.Ipc.SeqLock.{is_odd, seq_lock_read_retry}
use tyndall.Ipc.Shmem.{c_name}
use tyndall.Ipc.Shmem.Create.{ShmCalls, map_failed}
use tyndall.Tools.IpcRead.{Event, print}

-- What a round does: it shows the bytes that it has copied, or it sleeps.
pub data Output : Type 0 where
  by_format : (copied : Bytes) → List Event → Output
  hex : List ℕ → Output
  slept : Output

pub data Exit : Type 0 where
  usage : Exit
  assertion_failed : Exit
  waiting : Exit
  shown : List Output → Exit

-- `CACHELINE_BYTES` of smp.h on x86_64.
abbrev pub cacheline_bytes : ℕ
cacheline_bytes = 64

abbrev pub dev_shm_prefix : Bytes
dev_shm_prefix = codes "/dev/shm/"

unfoldable pub strip_prefix : Bytes → Bytes
strip_prefix ipc_id = if starts_with dev_shm_prefix ipc_id then drop 9 ipc_id else ipc_id

-- `ipc_size - 2*sizeof(int) - CACHELINE_BYTES`, of size_t.
unfoldable pub buf_size_of : ℕ → ℕ
buf_size_of ipc_size = (ipc_size + 2 ^ 64 - 8 - cacheline_bytes) % 2 ^ 64

unfoldable pub align_buf : ℕ → ℕ
align_buf buf =
    let alignment_error = buf % cacheline_bytes in
    if ltb 0 alignment_error then buf + (cacheline_bytes - alignment_error) else buf

-- The unsigned at the start of an image of the memory.
abbrev pub ipc_seq : Bytes → ℕ
ipc_seq image =
    get_or image 0 0
    + 256 * get_or image 1 0
    + 65536 * get_or image 2 0
    + 16777216 * get_or image 3 0

-- What "%02x" is given for a char that is `signed`.
abbrev pub hex_argument : Bool → ℕ → ℕ
hex_argument signed c = if ltb c 128 then c else if signed then c + 2 ^ 32 - 256 else c

-- `argv[2]`, if there is one.
abbrev pub argument_format : List Bytes → Option Bytes
argument_format [] = none
argument_format (fmt ∷ more) = some fmt

abbrev pub exit_of : Option (List Output) → Exit
exit_of none = waiting
exit_of (some outputs) = shown outputs

-- `memory t` is the image of the mapped memory at the access `t`.
module _ (memory : ℕ → Bytes) where
  -- `seq_lock_read_begin`, with the time behind it.
  unfoldable pub read_begin : ℕ → ℕ → Option (ℕ × ℕ)
  read_begin zero t = none
  read_begin (suc fuel) t =
      let wait = read_begin fuel (suc t) in
      if is_odd (ipc_seq (memory t)) then wait else some (ipc_seq (memory t), suc t)

  -- `memcpy`, a byte at a time.
  unfoldable pub copy_bytes : (size at t : ℕ) → Bytes
  copy_bytes zero at t = []
  copy_bytes (suc size) at t = get_or (memory t) at 0 ∷ copy_bytes size (suc at) (suc t)

  -- The `do` loop: the number, the bytes, and the time behind it. `none`: it has not ended yet.
  unfoldable pub copy_buf : (fuel size t : ℕ) → Option (ℕ × Bytes × ℕ)
  copy_buf zero size t = none
  copy_buf (suc fuel) size t = bind (read_begin (suc fuel) t) (λ (seq1, t1).
      let again = copy_buf fuel size (suc (t1 + size)) in
      if seq_lock_read_retry (ipc_seq (memory (t1 + size))) seq1
      then again
      else some (seq1, copy_bytes size cacheline_bytes t1, suc (t1 + size)))

  -- The format in the tailer, if the tailer is larger than a hash.
  unfoldable pub debug_format : (ipc_size t : ℕ) → Option Bytes
  debug_format ipc_size t =
      let debug_tail_size = ipc_size % cacheline_bytes in
      if ltb 4 debug_tail_size
      then some (c_name (drop (ipc_size - (debug_tail_size - 4)) (memory t)))
      else none

  module _ (signed : Bool) (strlen_at : ℕ → ℕ) where
    abbrev pub show_as : Option Bytes → (buf size : ℕ) → Bytes → Output
    show_as (some fmt) buf size copied = by_format copied (print strlen_at fmt buf size)
    show_as none buf size copied = hex (map (hex_argument signed) copied)

    -- `argv[2]` if there is one, else the format in the tailer, else bytes.
    abbrev pub show : Option Bytes → (ipc_size buf t : ℕ) → Bytes → Output
    show (some fmt) ipc_size buf t copied = show_as (some fmt) buf (buf_size_of ipc_size) copied
    show none ipc_size buf t copied =
        show_as (debug_format ipc_size t) buf (buf_size_of ipc_size) copied

    -- A round of `while(1)`: what it does, `seq` behind it, and the time behind it.
    unfoldable pub main_round :
        (fuel : ℕ) → Option Bytes → (ipc_size buf seq t : ℕ) → Option (Output × ℕ × ℕ)
    main_round fuel format ipc_size buf seq t =
        bind (copy_buf fuel (buf_size_of ipc_size) t) (λ (seq1, copied, t').
          if not (seq1 == seq)
          then some (show format ipc_size buf t' copied, seq1, t')
          else some (slept, seq, t'))

    unfoldable pub main_loop :
        (fuel rounds : ℕ) → Option Bytes → (ipc_size buf seq t : ℕ) → Option (List Output)
    main_loop fuel zero format ipc_size buf seq t = some []
    main_loop fuel (suc rounds) format ipc_size buf seq t =
        bind (main_round fuel format ipc_size buf seq t) (λ (output, seq', t').
          bind (main_loop fuel rounds format ipc_size buf seq' t')
            (λ outputs. some (output ∷ outputs)))

    module _ {ℓ} {W : Type ℓ} (os : ShmCalls W) (fstat : ℕ → W → Option ℕ) (malloc : ℕ → ℕ) where
      -- Behind `mmap`, with the first rounds of the loop.
      unfoldable pub main_mapped : (fuel rounds : ℕ) → Option Bytes → (ipc_size : ℕ) → ℕ × W → Exit
      main_mapped fuel rounds format ipc_size (mapped, w) =
          if mapped == map_failed
          then assertion_failed
          else if not (mapped % cacheline_bytes == 0)
          then assertion_failed
          else exit_of (
              main_loop fuel rounds format ipc_size
                (align_buf (malloc ((buf_size_of ipc_size + cacheline_bytes) % 2 ^ 64))) 0 0)

      -- Behind `fstat`.
      unfoldable pub main_sized : (fuel rounds : ℕ) → Option Bytes → (fd : ℕ) → Option ℕ → W → Exit
      main_sized fuel rounds format fd none w = assertion_failed
      main_sized fuel rounds format fd (some ipc_size) w =
          main_mapped fuel rounds format ipc_size (os.mmap ipc_size fd w)

      -- Behind `shm_open`.
      unfoldable pub main_opened : (fuel rounds : ℕ) → Option Bytes → Option ℕ × W → Exit
      main_opened fuel rounds format (none, w) = assertion_failed
      main_opened fuel rounds format (some fd, w) = main_sized fuel rounds format fd (fstat fd w) w

      unfoldable pub main : (fuel rounds : ℕ) (argv : List Bytes) → W → Exit
      main fuel rounds [] w = usage
      main fuel rounds (program ∷ []) w = usage
      main fuel rounds (program ∷ ipc_id ∷ more) w =
          main_opened fuel rounds (argument_format more) (os.shm_open (strip_prefix ipc_id) w)
