-- ===== src/Log/Glob.antt =====
-- tyndall/log/log.cpp: `log_glob_match`, the match of a category with a pattern such as "my_ca*e*ry".
pub mod Pieces
pub mod Order
use tyndall.Base.{
  ℕ, zero, suc, ◌-◌, Bool, true, false, if◌then◌else◌, ◌==◌, ltb, Option, none, some, Bytes, [],
  ◌∷◌, take, drop, char_at, index_of, starts_with, bind,
}

-- `s += n`; `none` is a pointer behind the NUL, which must not be read.
abbrev pub advance : ℕ → Bytes → Option Bytes
advance zero s = some s
advance (suc n) [] = none
advance (suc n) (c ∷ s) = advance n s

-- `pat_end - pat_start`, with `left` bytes of the pattern left at `pat_start`.
unfoldable pub piece_length : Bytes → ℕ → ℕ
piece_length pat_start left = elim (index_of b'*' pat_start) [
  | none ↦ left
  | some i ↦ if ltb left i then left else i
]

-- The inner loop: the first place from `str_index` on where the piece stands; none at the NUL.
unfoldable pub search_piece : Bytes → Bytes → Option Bytes
search_piece piece [] = none
search_piece piece (c ∷ s) =
    let later = search_piece piece s in if starts_with piece (c ∷ s) then some (c ∷ s) else later

abbrev pub found_or : Option Bytes → Bytes → Bytes
found_or none s = s
found_or (some t) s = t

abbrev pub still : Option Bytes → Bool → Bool
still none ret = false
still (some t) ret = ret

-- The `do` loop. `none` is a read behind the end of `str`, or the fuel's end.
unfoldable pub glob_loop : ℕ → Bytes → ℕ → Bytes → Bool → Option Bool
glob_loop zero pat_start left str_index ret = none
glob_loop (suc fuel) pat_start left str_index ret =
    let len = piece_length pat_start left in
    let found = search_piece (take len pat_start) str_index in
    let pat_end = drop len pat_start in
    let again =
      bind (advance len (found_or found str_index))
        (λ s. glob_loop fuel (drop 1 pat_end) (left - len - 1) s (still found ret)) in
    if char_at pat_end == b'*' then again else some (still found ret)

-- `pat` is the text from the pattern on, and `n` the pattern's size, where `pat[n]` is no star.
-- A round takes a byte of the pattern, so `n + 1` rounds are enough.
unfoldable pub log_glob_match : Bytes → Bytes → ℕ → Option Bool
log_glob_match pat str n = glob_loop (suc n) pat n str true
