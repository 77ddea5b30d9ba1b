-- ===== src/Log/Filter/Entries.antt =====
-- What `log_level` makes of LOG_LEVEL.
use tyndall.Base.{
  index_of_split, drop_behind, subst, append-nil, All-append, ℕ, zero, suc, ◌+◌, ◌≤◌, Bool, true,
  false, if◌then◌else◌, ◌==◌, ne→==, ltb, Option, none, some, Bytes, [], ◌∷◌, ◌++◌, drop, length,
  length-append, char_at, index_of, index_of-append, index_of-Lacks, Option-cases, inl, inr,
  drop-append, Lacks, shift, bind, eq_ℤ, pos, ◌≡◌, ◌≢◌, refl, sym, ◌∙◌, arith,
}
use tyndall.Log.Level.{LogLevel, info, invalid, log_level_to_string, log_level_from_string}
use tyndall.Log.Level.Laws.{each_name, from_string-to_string}
use tyndall.Log.Glob.{log_glob_match}
use tyndall.Log.Filter.{
  take_at, strchr, colon_first, take_value, take_entry, entries_loop, log_level,
}

-- Without LOG_LEVEL, and with any LOG_LEVEL of one character, every category has the level info: the
-- loop over the entries does not look at a single character, so "1" does not set the level error.
pub log_level_one_char :
    (c : ℕ) (cat : Bytes)
    → (log_level none cat ≡ some info) × (log_level (some (c ∷ [])) cat ≡ some info)
unfolding log_level entries_loop
log_level_one_char c cat = (refl, refl)

-- No colon, no comma and no NUL in the text.
abbrev pub IsPlain : Bytes → Type 0
IsPlain s = Lacks b':' s × Lacks b',' s

name_IsPlain :
    (i : ℕ) {name : Bytes}
    → log_level_to_string (pos i) ≡ some name
    → IsPlain name
      × (2 ≤ length name)
      × (char_at name ≢ b',')
      × (char_at name ≢ 0)
      × (eq_ℤ (pos i) invalid ≡ false)
name_IsPlain i e =
    each_name
      (λ n text.
        IsPlain text
        × (2 ≤ length text)
        × (char_at text ≢ b',')
        × (char_at text ≢ 0)
        × (eq_ℤ (pos n) invalid ≡ false))
      (((omega arith, omega arith), omega arith, omega arith, omega arith, refl))
      (((omega arith, omega arith), omega arith, omega arith, omega arith, refl))
      (((omega arith, omega arith), omega arith, omega arith, omega arith, refl))
      (((omega arith, omega arith), omega arith, omega arith, omega arith, refl))
      (((omega arith, omega arith), omega arith, omega arith, omega arith, refl))
      (((omega arith, omega arith), omega arith, omega arith, omega arith, refl))
      (((omega arith, omega arith), omega arith, omega arith, omega arith, refl)) i e

first_entry :
    (fuel : ℕ) (e cat : Bytes) (lvl : LogLevel)
    → 2 ≤ length e
    → char_at e ≢ b','
    → entries_loop (suc fuel) (some e) cat lvl
      ≡ bind (take_entry e cat lvl) (λ lvl'. entries_loop fuel (strchr b',' (drop 1 e)) cat lvl')
unfolding entries_loop
first_entry fuel [] cat lvl h hc = absurd (omega arith)
first_entry fuel (c ∷ []) cat lvl h hc = absurd (omega arith)
first_entry fuel (c ∷ d ∷ s) cat lvl h hc = rw (ne→== c b',' hc)

next_entry :
    (fuel : ℕ) (e cat : Bytes) (lvl : LogLevel)
    → 1 ≤ length e
    → entries_loop (suc fuel) (some (b',' ∷ e)) cat lvl
      ≡ bind (take_entry e cat lvl) (λ lvl'. entries_loop fuel (strchr b',' (drop 1 e)) cat lvl')
unfolding entries_loop
next_entry fuel [] cat lvl h = absurd (omega arith)
next_entry fuel (d ∷ s) cat lvl h = refl

no_entry :
    (fuel : ℕ) (cat : Bytes) (lvl : LogLevel) → entries_loop (suc fuel) none cat lvl ≡ some lvl
unfolding entries_loop
no_entry fuel cat lvl = refl

-- No entry is left behind a text without a comma.
last_entry :
    (fuel : ℕ) (e cat : Bytes) (lvl : LogLevel)
    → Lacks b',' e
    → entries_loop (suc fuel) (strchr b',' (drop 1 e)) cat lvl ≡ some lvl
last_entry fuel [] cat lvl h = no_entry fuel cat lvl
last_entry fuel (c ∷ s) cat lvl (_, h) = rw (index_of-Lacks b',' s h) (no_entry fuel cat lvl)

take_at_late :
    (e cat : Bytes) (lvl : LogLevel) (colon : ℕ)
    → colon_first e colon ≡ false
    → take_at e cat lvl (some colon) ≡ take_value e lvl
unfolding take_at
take_at_late e cat lvl colon h =
    rw (h) (same (char_at (drop (suc colon) e) == 0) (take_value e lvl))
  where
    same : (b : Bool) (o : Option LogLevel) → (if b then o else o) ≡ o
    same true o = refl
    same false o = refl

take_at-none : (e cat : Bytes) (lvl : LogLevel) → take_at e cat lvl none ≡ take_value e lvl
unfolding take_at
take_at-none e cat lvl = refl

-- An entry whose colon, if it has one, stands behind its comma is a level with no category.
take_entry-late :
    (e cat : Bytes) (lvl : LogLevel)
    → ((colon : ℕ) → index_of b':' e ≡ some colon → colon_first e colon ≡ false)
    → take_entry e cat lvl ≡ take_value e lvl
take_entry-late e cat lvl h = elim (Option-cases (index_of b':' e)) [
  | inl at ↦ rw (at) (take_at-none e cat lvl)
  | inr (colon, at) ↦ rw (at) (take_at_late e cat lvl colon (h colon at))
]

-- An entry with a pattern and a level.
take_at_pattern :
    (e cat : Bytes) (lvl : LogLevel) (colon : ℕ) (matches : Bool)
    → char_at (drop (suc colon) e) ≢ 0
    → colon_first e colon ≡ true
    → log_glob_match e cat colon ≡ some matches
    → take_at e cat lvl (some colon)
      ≡ (if matches then log_level_from_string (drop (suc colon) e) else take_value e lvl)
unfolding take_at
take_at_pattern e cat lvl colon matches hv hc hm = rw (ne→== _ _ hv, hc, hm)

take_value_set :
    (e : Bytes) (lvl : LogLevel) → eq_ℤ lvl invalid ≡ false → take_value e lvl ≡ some lvl
unfolding take_value
take_value_set e lvl h = rw (h)

take_value-to_string :
    (i : ℕ) {name : Bytes} (rest : Bytes)
    → log_level_to_string (pos i) ≡ some name
    → take_value (name ++ rest) invalid ≡ some (pos i)
unfolding take_value
take_value-to_string i {name} rest e = from_string-to_string i name rest e

at_least : (n : ℕ) (o : Option ℕ) (i : ℕ) → shift n o ≡ some i → n ≤ i
at_least n none i h = cc
at_least n (some k) i h = subst (λ x. n ≤ x) (cc) (self k)
  where
    self : (k : ℕ) → n ≤ n + k
    self k = omega arith

-- A text with no colon is over at the comma, wherever the next colon is.
late :
    (g rest : Bytes) (colon : ℕ)
    → IsPlain g
    → index_of b':' (g ++ (b',' ∷ rest)) ≡ some colon
    → colon_first (g ++ (b',' ∷ rest)) colon ≡ false
late g rest colon (no_colon, no_comma) at = rw (index_of-append b',' g (b',' ∷ rest) no_comma) (
    comma_here colon (
      at_least (length g) (index_of b':' (b',' ∷ rest)) colon
        (sym (index_of-append b':' g (b',' ∷ rest) no_colon) ∙ at)))
  where
    comma_here : (colon : ℕ) → length g ≤ colon → ltb colon (length g + 0) ≡ false
    comma_here colon h = ground arith

from_string_name :
    (j : ℕ) (v : Bytes)
    → log_level_to_string (pos j) ≡ some v
    → log_level_from_string v ≡ some (pos j)
from_string_name j v named =
    subst (λ s. log_level_from_string s ≡ some (pos j)) (append-nil v)
      (from_string-to_string j v [] named)

-- An entry `pattern:level` takes the level at a match, and leaves the level so far at none.
pattern_entry :
    (pat cat v : Bytes) (j : ℕ) (lvl : LogLevel) (matches : Bool)
    → IsPlain pat
    → log_level_to_string (pos j) ≡ some v
    → eq_ℤ lvl invalid ≡ false
    → log_glob_match (pat ++ (b':' ∷ v)) cat (length pat) ≡ some matches
    → take_entry (pat ++ (b':' ∷ v)) cat lvl ≡ some (if matches then pos j else lvl)
pattern_entry pat cat v j lvl matches (no_colon, no_comma) named set matched =
    let ((_, v_no_comma), _, _, v_starts, _) = name_IsPlain j named in
    let value = drop_behind pat b':' v in
    let first : colon_first (pat ++ (b':' ∷ v)) (length pat) ≡ true =
      rw
        (index_of-Lacks b',' (pat ++ (b':' ∷ v))
          (All-append (λ d. d ≢ b',') pat (b':' ∷ v) no_comma (omega arith, v_no_comma)))
        refl in
    rw (index_of_split b':' pat v no_colon) (
      take_at_pattern (pat ++ (b':' ∷ v)) cat lvl (length pat) matches (rw (value) v_starts) first
        matched
      ∙ rw (value, from_string_name j v named, take_value_set (pat ++ (b':' ∷ v)) lvl set)
          (either matches lvl))
  where
    either :
        (b : Bool) (lvl : LogLevel)
        → ◌≡◌ {A = Option LogLevel}
            (if b then some (pos j) else some lvl)
            (some (if b then pos j else lvl))
    either true lvl = refl
    either false lvl = refl

-- A level's name, and what a comma parts from it.
name_entry :
    (g rest cat : Bytes) (i : ℕ)
    → log_level_to_string (pos i) ≡ some g
    → take_entry (g ++ (b',' ∷ rest)) cat invalid ≡ some (pos i)
name_entry g rest cat i named =
    let (plain, _, _, _, _) = name_IsPlain i named in
    take_entry-late (g ++ (b',' ∷ rest)) cat invalid (λ colon at. late g rest colon plain at)
    ∙ take_value-to_string i (b',' ∷ rest) named

-- After a level's name, the loop is at the comma.
name_next :
    (g rest : Bytes)
    → 1 ≤ length g
    → Lacks b',' g
    → strchr b',' (drop 1 (g ++ (b',' ∷ rest))) ≡ some (b',' ∷ rest)
name_next [] rest h no_comma = absurd (omega arith)
name_next (c ∷ g) rest h (_, no_comma) =
    rw (index_of_split b',' g rest no_comma, drop-append g (b',' ∷ rest)) refl

two_rounds :
    (f : ℕ) (g tail cat : Bytes) (i : ℕ) (lvl : LogLevel)
    → log_level_to_string (pos i) ≡ some g
    → 1 ≤ length tail
    → Lacks b',' tail
    → take_entry tail cat (pos i) ≡ some lvl
    → entries_loop (suc (suc (suc f))) (some (g ++ (b',' ∷ tail))) cat invalid ≡ some lvl
two_rounds f g tail cat i lvl named long no_comma entry =
    let ((_, g_no_comma), g_long, _, _, _) = name_IsPlain i named in
    first_entry (suc (suc f)) (g ++ (b',' ∷ tail)) cat invalid
      (rw (length-append g (b',' ∷ tail)) (omega arith)) (starts g g_long g_no_comma)
    ∙ rw (name_entry g tail cat i named, name_next g tail (omega arith) g_no_comma)
        (next_entry (suc f) tail cat (pos i) long ∙ rw (entry) (last_entry f tail cat lvl no_comma))
  where
    starts : (g : Bytes) → 2 ≤ length g → Lacks b',' g → char_at (g ++ (b',' ∷ tail)) ≢ b','
    starts [] h _ = absurd (omega arith)
    starts (c ∷ g) h (hc, _) = hc

enough : (n : ℕ) → 2 ≤ n → (k : ℕ) × (n ≡ suc (suc k))
enough zero h = absurd (omega arith)
enough (suc zero) h = absurd (omega arith)
enough (suc (suc k)) h = (k, refl)

chosen :
    (matches : Bool) (i j : ℕ)
    → eq_ℤ (pos i) invalid ≡ false
    → eq_ℤ (pos j) invalid ≡ false
    → eq_ℤ (if matches then pos j else pos i) invalid ≡ false
chosen true i j hi hj = hj
chosen false i j hi hj = hi

-- A LOG_LEVEL of a level's name g, a comma, and `pattern:name`: a category that the pattern matches has
-- the level of the second name, and any other the level of g; the pattern has no colon and no comma.
pub log_level_override :
    (g pat v cat : Bytes) (i j : ℕ) (matches : Bool)
    → log_level_to_string (pos i) ≡ some g
    → IsPlain pat
    → log_level_to_string (pos j) ≡ some v
    → log_glob_match (pat ++ (b':' ∷ v)) cat (length pat) ≡ some matches
    → log_level (some (g ++ (b',' ∷ (pat ++ (b':' ∷ v))))) cat
      ≡ some (if matches then pos j else pos i)
unfolding log_level
log_level_override g pat v cat i j matches g_named plain v_named matched =
    let tail = pat ++ (b':' ∷ v) in
    let (_, g_long, _, _, g_set) = name_IsPlain i g_named in
    let ((_, v_no_comma), _, _, _, v_set) = name_IsPlain j v_named in
    let (_, pat_no_comma) = plain in
    let (f, size) =
      enough (length (g ++ (b',' ∷ tail))) (rw (length-append g (b',' ∷ tail)) (omega arith)) in
    rw (
      size,
      two_rounds f g tail cat i (if matches then pos j else pos i) g_named
          (rw (length-append pat (b':' ∷ v)) (omega arith))
          (All-append (λ d. d ≢ b',') pat (b':' ∷ v) pat_no_comma (omega arith, v_no_comma))
          (pattern_entry pat cat v j (pos i) matches plain v_named g_set matched),
      chosen matches i j g_set v_set,
    )
