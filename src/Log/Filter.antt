-- ===== src/Log/Filter.antt =====
-- tyndall/log/log.cpp: `log_level`, the level of a category by the environment variable LOG_LEVEL.
pub mod Entries
pub mod Rounds
pub mod Ends
use tyndall.Base.{
  ℕ, zero, suc, ◌+◌, Bool, true, false, ◌&&◌, if◌then◌else◌, ◌==◌, ltb, Option, none, some, Bytes,
  [], ◌∷◌, drop, length, char_at, index_of, bind, eq_ℤ,
}
use tyndall.Log.Level.{LogLevel, invalid, log_level_default, log_level_from_string}
use tyndall.Log.Glob.{log_glob_match}

-- `strchr` as a pointer.
abbrev pub strchr : ℕ → Bytes → Option Bytes
strchr c s = bind (index_of c s) (λ i. some (drop i s))

-- `(comma == NULL) || (comma > colon)`, for the comma found in `e`.
abbrev pub comma_behind : Option ℕ → ℕ → Bool
comma_behind none colon = true
comma_behind (some comma) colon = ltb colon comma

abbrev pub colon_first : Bytes → ℕ → Bool
colon_first e colon = comma_behind (index_of b',' e) colon

-- The branch for a level with no category.
unfoldable pub take_value : Bytes → LogLevel → Option LogLevel
take_value e ref_lvl = if eq_ℤ ref_lvl invalid then log_level_from_string e else some ref_lvl

-- The body of the loop from the search for the colon on, at what the search found.
unfoldable pub take_at : Bytes → Bytes → LogLevel → Option ℕ → Option LogLevel
take_at e cat ref_lvl none = take_value e ref_lvl
take_at e cat ref_lvl (some colon) =
    let value = drop (suc colon) e in
    if char_at value == 0
    then take_value e ref_lvl
    else if colon_first e colon
    then bind (log_glob_match e cat colon)
        (λ matches. if matches then log_level_from_string value else take_value e ref_lvl)
    else take_value e ref_lvl

abbrev pub take_entry : Bytes → Bytes → LogLevel → Option LogLevel
take_entry e cat ref_lvl = take_at e cat ref_lvl (index_of b':' e)

-- The loop over the entries; `none` is a read behind the NUL, or the fuel's end.
unfoldable pub entries_loop : ℕ → Option Bytes → Bytes → LogLevel → Option LogLevel
entries_loop zero e cat ref_lvl = none
entries_loop (suc fuel) none cat ref_lvl = some ref_lvl
entries_loop (suc fuel) (some []) cat ref_lvl = none
entries_loop (suc fuel) (some (c ∷ [])) cat ref_lvl = some ref_lvl
entries_loop (suc fuel) (some (c ∷ d ∷ s)) cat ref_lvl =
    let e = if c == b',' then d ∷ s else c ∷ d ∷ s in
    bind (take_entry e cat ref_lvl) (λ lvl. entries_loop fuel (strchr b',' (drop 1 e)) cat lvl)

-- A round takes at least a byte.
unfoldable pub log_level : Option Bytes → Bytes → Option LogLevel
log_level none cat = some log_level_default
log_level (some env) cat =
    bind (entries_loop (suc (length env)) (some env) cat invalid)
      (λ ref_lvl. some (if eq_ℤ ref_lvl invalid then log_level_default else ref_lvl))
