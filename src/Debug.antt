-- ===== src/Debug.antt =====
-- tyndall/debug.h: what its macros do, with DEBUG and without.
pub mod Builds
mod Examples
use tyndall.Base.{
  ℕ, Bool, true, false, if◌then◌else◌, Option, none, some, Bytes, List, [], ◌∷◌, ◌++◌, codes,
}

pub data Stream : Type 0 where
  debug_stdout : Stream
  debug_stderr : Stream

-- The calls of stdio. `strerror` is `strerror(errno)`; the arguments behind a format are texts.
pub record Stdio {ℓ} (W : Type ℓ) : Type ℓ where
  pub fprintf : Stream → (format : Bytes) → (args : List Bytes) → W → W
  pub fflush : Stream → W → W
  pub strerror : W → Bytes

-- `__FILE__` and `__LINE__` of a macro's use.
pub record Site : Type 0 where
  pub file : Bytes
  pub line : Bytes

-- How a statement ends: the function goes on behind it, it returns a value, or the program exits.
pub data Ending {ℓ} (R : Type ℓ) : Type ℓ where
  goes_on : Ending R
  returned : R → Ending R
  exited : (status : ℕ) → Ending R

abbrev pub color_red : Bytes
color_red = 27 ∷ codes "[31m"

abbrev pub color_bold : Bytes
color_bold = 27 ∷ codes "[1m"

abbrev pub color_reset : Bytes
color_reset = 27 ∷ codes "[0m"

-- A statement in the macro's arguments: `exit(1)` follows, unless it returns.
abbrev pub or_exit {ℓ} : {R : Type ℓ} → Option R → Ending R
or_exit none = exited 1
or_exit (some r) = returned r

-- What is evaluated of the condition in `debug_assert`: all with DEBUG, and nothing of it in `sizeof`.
unfoldable pub evaluated {ℓ} : {W : Type ℓ} → (defined : Bool) → (W → Bool × W) → W → Bool × W
evaluated true cond w = cond w
evaluated false cond w = (true, w)

module _ {ℓ} {W : Type ℓ} (io : Stdio W) (site : Site) where
  unfoldable pub debug_f : Stream → (format : Bytes) → (args : List Bytes) → W → W
  debug_f fd format args w =
      io.fprintf fd
        (codes "[" ++ (site.file ++ (codes " line" ++ 9 ∷ (site.line ++ (codes "] " ++ format)))))
        args w

  unfoldable pub debug_flush : Stream → (format : Bytes) → (args : List Bytes) → W → W
  debug_flush fd format args w = io.fflush fd (debug_f fd format args w)

  -- The macros with DEBUG. Arguments are evaluated before the call.
  unfoldable pub error_f : (format : Bytes) → (args : List Bytes) → W → W
  error_f format args w =
      debug_f debug_stderr
        (color_red ++ (color_bold ++ (codes "[errno: %s] " ++ (format ++ color_reset))))
        (io.strerror w ∷ args) w

  -- Without DEBUG the call stands in a `sizeof`, and is not made.
  unfoldable pub debug_nothing : Bytes → (W → List Bytes × W) → W → W
  debug_nothing format args w = w

  unfoldable pub debug : (defined : Bool) → Bytes → (W → List Bytes × W) → W → W
  debug true format args w = let (values, w') = args w in debug_f debug_stdout format values w'
  debug false format args w = debug_nothing format args w

  unfoldable pub debug_plain : (defined : Bool) → Bytes → (W → List Bytes × W) → W → W
  debug_plain true format args w =
      let (values, w') = args w in io.fprintf debug_stdout format values w'
  debug_plain false format args w = debug_nothing format args w

  unfoldable pub debug_instant : (defined : Bool) → Bytes → (W → List Bytes × W) → W → W
  debug_instant true format args w =
      let (values, w') = args w in debug_flush debug_stdout format values w'
  debug_instant false format args w = debug_nothing format args w

  unfoldable pub debug_error : (defined : Bool) → Bytes → (W → List Bytes × W) → W → W
  debug_error true format args w = let (values, w') = args w in error_f format values w'
  debug_error false format args w = debug_nothing format args w

  unfoldable pub debug_error_plain : (defined : Bool) → Bytes → (W → List Bytes × W) → W → W
  debug_error_plain true format args w =
      let (values, w') = args w in io.fprintf debug_stderr format values w'
  debug_error_plain false format args w = debug_nothing format args w

  -- `text` is the condition as it is written.
  unfoldable pub debug_assert {ℓ'} :
      {R : Type ℓ'}
      → (defined : Bool) → (cond : W → Bool × W) (text : Bytes) → (statement : W → Option R × W) → W
      → Ending R × W
  debug_assert defined cond text statement w =
      let (holds, w') = evaluated defined cond w in
      let (result, w'') = statement (
        error_f (codes "assertion failed: (" ++ (text ++ (codes ") errno: %s" ++ 10 ∷ [])))
          (io.strerror w' ∷ []) w') in
      if holds then (goes_on, w') else (or_exit result, w'')

  -- These two exist with DEBUG only.
  unfoldable pub debug_assert_v : (W → Bool × W) → Bytes → List Bytes → W → W
  debug_assert_v cond format args w =
      let (holds, w') = cond w in
      let printed = error_f format args w' in
      if holds
      then w'
      else io.fprintf debug_stderr (codes "%s" ++ 10 ∷ []) (io.strerror printed ∷ []) printed

  unfoldable pub debug_abort {ℓ'} : {R : Type ℓ'} → Bytes → List Bytes → W → Ending R × W
  debug_abort format args w = (exited 1, debug_assert_v (λ v. (false, v)) format args w)
