-- ===== src/Log/Filter/Ends.antt =====
-- The loop of `log_level` over the entries ends, with a level.
use tyndall.Base.{
  sym, ℕ, zero, suc, Bool, true, ne→==, Option, none, some, Bytes, [], ◌∷◌, drop, take, char_at,
  index_of, Lacks, ◌≡◌, ◌≢◌, refl, arith,
}
use tyndall.Log.Glob.{piece_length, search_piece, still, glob_loop, log_glob_match}

-- Where a colon follows, the match of the pattern in front of it reads nothing behind the category.
abbrev pub IsReadable : Bytes → Bytes → Type 0
IsReadable e cat =
    (i colon : ℕ)
    → index_of b':' (drop i e) ≡ some colon
    → (b : Bool) × (log_glob_match (drop i e) cat colon ≡ some b)

-- A pointer of the loop is NULL, or to bytes of which each entry can be read.
IsStart : Bytes → Option Bytes → Type 0
IsStart cat none = Unit
IsStart cat (some e) = (e ≢ []) × IsReadable e cat

-- A pattern without a star is matched in one round.
char_at-Lacks : (n c : ℕ) (s : Bytes) → c ≢ 0 → Lacks c s → char_at (drop n s) ≢ c
char_at-Lacks zero c [] ne h e = ne (sym e)
char_at-Lacks (suc n) c [] ne h e = ne (sym e)
char_at-Lacks zero c (d ∷ s) ne (hd, hs) e = hd e
char_at-Lacks (suc n) c (d ∷ s) ne (hd, hs) e = char_at-Lacks n c s ne hs e

drop-Lacks : (n c : ℕ) (s : Bytes) → Lacks c s → Lacks c (drop n s)
drop-Lacks zero c s h = h
drop-Lacks (suc n) c [] h = tt
drop-Lacks (suc n) c (d ∷ s) (_, h) = drop-Lacks n c s h

-- So a LOG_LEVEL without a star can be read.
pub Lacks-IsReadable : (env cat : Bytes) → Lacks b'*' env → IsReadable env cat
unfolding log_glob_match glob_loop
Lacks-IsReadable env cat h i colon at =
    let len = piece_length (drop i env) colon in
    let behind : char_at (drop len (drop i env)) ≢ b'*' =
      char_at-Lacks len b'*' (drop i env) (omega arith) (drop-Lacks i b'*' env h) in
    (
      still (search_piece (take len (drop i env)) cat) true,
      rw (ne→== (char_at (drop len (drop i env))) b'*' behind) refl,
    )
