-- ===== src/Tools/IpcRead.antt =====
-- tools/ipc_read.cpp: `print`, which prints a buffer by a format text.
pub mod Layout
pub mod Main
pub mod Nested
use tyndall.Base.{
  ℕ, zero, suc, ◌+◌, ◌-◌, ◌^◌, Bool, true, false, if◌then◌else◌, ◌==◌, ltb, Option, none, some,
  Bytes, List, [], ◌∷◌, ◌++◌, char_at, drop, is_digit, digits_value, length,
}
use Prim.Native.Nat.{min}
use tyndall.Reflect.PrintFormat.{Printed, print_format}

-- What is printed, line ends and separators left out.
pub data Event : Type 0 where
  skipped : (num : ℕ) → Event
  value : (printed : Printed) → Event
  text : (address : ℕ) → Event
  wrong_parameter : (c : ℕ) → Event
  too_large : Event

-- `strtol(f, &f, 10)` at a digit: where it stops.
skip_digits : Bytes → Bytes
skip_digits [] = []
skip_digits (c ∷ s) = let rest = skip_digits s in if is_digit c then rest else c ∷ s

-- The number at `f`, if there is one: the new `f`, and how far `b` moves.
unfoldable pub take_number : Bytes → List Event × Bytes × ℕ
unfolding skip_digits
take_number f =
    if is_digit (char_at f)
    then (let num = min (digits_value 0 f) (2 ^ 63 - 1) in (skipped num ∷ [], skip_digits f, num))
    else ([], f, 0)

abbrev pub printed_events : Option Printed → List Event
printed_events none = []
printed_events (some p) = value p ∷ []

-- `strlen_at address` is `strlen` of the memory there.
module _ (strlen_at : ℕ → ℕ) where
  -- The switch: what is printed, and `printed`.
  unfoldable pub switch_parameter : ℕ → ℕ → List Event × ℕ
  switch_parameter c b =
      if c == b's' then (text b ∷ [], strlen_at b) else (wrong_parameter c ∷ [], 0)

  -- Behind the call of `print_format`. If the number is 0 the loop is left.
  unfoldable pub take_printed : ℕ → ℕ → Option Printed × ℕ → List Event × ℕ
  take_printed c b (p, printed) =
      let (events, n) = switch_parameter c b in
      if printed == 0 then (printed_events p ++ events, n) else (printed_events p, printed)

  unfoldable pub print_loop : ℕ → ℕ → ℕ → Bytes → ℕ → List Event
  print_loop zero buf buf_size f b = []
  print_loop (suc fuel) buf buf_size [] b = []
  print_loop (suc fuel) buf buf_size (c ∷ s) b =
      let (number, f, num) = take_number (c ∷ s) in
      let (events, printed) =
        take_printed (char_at f) (b + num) (print_format (char_at f) (b + num)) in
      let rest = print_loop fuel buf buf_size (drop 1 f) (b + num + printed) in
      number
      ++ (events
          ++ (if printed == 0
              then []
              else if ltb buf_size (b + num + printed - buf)
              then too_large ∷ []
              else rest))

  -- A round takes a character.
  unfoldable pub print : Bytes → ℕ → ℕ → List Event
  print fmt buf buf_size = print_loop (suc (length fmt)) buf buf_size fmt buf
