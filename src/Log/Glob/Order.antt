-- ===== src/Log/Glob/Order.antt =====
-- Which categories `log_glob_match` accepts.
use tyndall.Base.{
  ℕ, zero, suc, ◌<◌, ◌≤◌, Bool, true, false, Bool-cases, Option-cases, inl, inr, Option, none, some,
  Bytes, List, [], ◌∷◌, ◌++◌, append_assoc, length, length-append, char_at, starts_with,
  starts_with-append, starts_with_split, bind-eq-some, All, ◌≡◌, ◌≢◌, ◌↔◌, refl, sym, ap, subst,
  append-nil, ◌∙◌, arith,
}
use tyndall.Log.Glob.{advance, search_piece, still, log_glob_match}
use tyndall.Log.Glob.Pieces.{IsPiece, pattern_of, pieces_loop, log_glob_match-pieces}

-- The pieces stand in the text one behind the other, with anything between them.
abbrev pub InOrder : List Bytes → Bytes → Type 0
InOrder [] s = Unit
InOrder (p ∷ ps) s =
    (before : Bytes) × (after : Bytes) × (s ≡ before ++ (p ++ after)) × InOrder ps after

-- Where the search stops the piece stands.
record Found (p s t : Bytes) : Type 0 where
  before : Bytes
  after : Bytes
  place : t ≡ p ++ after
  whole : s ≡ before ++ t

search_sound : (p s t : Bytes) → search_piece p s ≡ some t → Found p s t
unfolding search_piece
search_sound p [] t e = cc
search_sound p (c ∷ s) t e = elim (Bool-cases (starts_with p (c ∷ s))) [
  | inl here ↦
      let (rest, split) = starts_with_split p (c ∷ s) here in
      let same : c ∷ s ≡ t = ground (arith, here) in
      record { before = []; after = rest; place = sym same ∙ split; whole = same }
  | inr not_here ↦
      let f = search_sound p s t (rw not_here at e) in
      record {
        before = c ∷ f.before;
        after = f.after;
        place = f.place;
        whole = ap (λ (u : Bytes). c ∷ u) f.whole;
      }
]

advance-append : (p t : Bytes) → advance (length p) (p ++ t) ≡ some t
advance-append [] t = refl
advance-append (c ∷ p) t = advance-append p t

still-true :
    (o : Option Bytes) (ret : Bool)
    → some (still o ret) ≡ some true
    → (t : Bytes) × (o ≡ some t) × (ret ≡ true)
still-true none ret e = absurd (cc e)
still-true (some t) ret e = (t, refl, cc)

-- An accepted category has the pieces in order.
pieces_sound :
    (p : Bytes) (ps : List Bytes) (str : Bytes) (ret : Bool)
    → pieces_loop p ps str ret ≡ some true
    → (ret ≡ true) × InOrder (p ∷ ps) str
pieces_sound p [] str ret e =
    let (t, found, ret_true) = still-true (search_piece p str) ret e in
    let f = search_sound p str t found in
    (ret_true, (f.before, f.after, f.whole ∙ ap (λ (u : Bytes). f.before ++ u) f.place, tt))
pieces_sound p (q ∷ ps) str ret e = elim (Option-cases (search_piece p str)) [
  | inl missing ↦
      let (s, moved, rest) = bind-eq-some (advance (length p) str) _ (rw missing at e) in
      absurd (cc (pieces_sound q ps s false rest).0)
  | inr (t, found) ↦
      let f = search_sound p str t found in
      let (s, moved, rest) = bind-eq-some (advance (length p) t) _ (rw found at e) in
      let (ret_true, others) = pieces_sound q ps s ret rest in
      let after_s : some f.after ≡ some s =
        sym (advance-append p f.after) ∙ ap (advance (length p)) (sym f.place) ∙ moved in
      let here : f.after ≡ s = cc in
      (
        ret_true,
        (
          f.before,
          s,
          f.whole ∙ ap (λ (u : Bytes). f.before ++ u) (f.place ∙ ap (λ (u : Bytes). p ++ u) here),
          others,
        ),
      )
]

-- Of two ways to cut a text the longer head goes further.
split_longer :
    (p rest q after : Bytes)
    → p ++ rest ≡ q ++ after
    → length p ≤ length q
    → (x : Bytes) × (rest ≡ x ++ after)
split_longer [] rest q after e le = (q, e)
split_longer (c ∷ p) rest [] after e le = absurd (omega arith)
split_longer (c ∷ p) rest (d ∷ q) after e le = split_longer p rest q after (cc) (omega arith)

-- A piece that stands somewhere is found there or before.
search_complete :
    (p before after : Bytes)
    → p ≢ []
    → (x : Bytes) × (search_piece p (before ++ (p ++ after)) ≡ some (p ++ (x ++ after)))
unfolding search_piece
search_complete [] before after ne = absurd (ne refl)
search_complete (c ∷ p) [] after ne = ([], rw (starts_with-append (c ∷ p) after))
search_complete (c ∷ p) (b ∷ before) after ne =
    elim (Bool-cases (starts_with (c ∷ p) (b ∷ (before ++ ((c ∷ p) ++ after))))) [
      | inl here ↦
          let (rest, split) = starts_with_split (c ∷ p) _ here in
          let (x, e) =
            split_longer (c ∷ p) rest (b ∷ (before ++ (c ∷ p))) after
              (sym split ∙ ap (λ (u : Bytes). b ∷ u) (sym (append_assoc before (c ∷ p) after)))
              (omega (arith, length-append before (c ∷ p))) in
          (x, rw here (ap some (split ∙ ap (λ (u : Bytes). (c ∷ p) ++ u) e)))
      | inr later ↦ let (x, e) = search_complete (c ∷ p) before after ne in (x, rw later e)
    ]

InOrder-append : (ps : List Bytes) (x s : Bytes) → InOrder ps s → InOrder ps (x ++ s)
InOrder-append [] x s h = tt
InOrder-append (p ∷ ps) x s (before, after, e, h) =
    (x ++ before, after, ap (λ (u : Bytes). x ++ u) e ∙ sym (append_assoc x before (p ++ after)), h)

-- A category that has the pieces in order is accepted, if no piece is empty.
pieces_complete :
    (p : Bytes) (ps : List Bytes) (str : Bytes)
    → All (λ q. q ≢ []) (p ∷ ps)
    → InOrder (p ∷ ps) str
    → pieces_loop p ps str true ≡ some true
pieces_complete p [] str (ne, _) (before, after, e, h) =
    let (x, found) = search_complete p before after ne in rw (e, found)
pieces_complete p (q ∷ ps) str (ne, nes) (before, after, e, h) =
    let (x, found) = search_complete p before after ne in
    rw (e, found, advance-append p (x ++ after))
      (pieces_complete q ps (x ++ after) nes (InOrder-append (q ∷ ps) x after h))

-- With no empty piece, a category matches exactly if the pieces between the stars stand in it one
-- behind the other, with anything before, between and behind them.
pub log_glob_match_iff :
    (p : Bytes) (ps : List Bytes) (t str : Bytes)
    → All IsPiece (p ∷ ps)
    → All (λ q. q ≢ []) (p ∷ ps)
    → char_at t ≢ b'*'
    → (log_glob_match (pattern_of p ps ++ t) str (length (pattern_of p ps)) ≡ some true)
      ↔ InOrder (p ∷ ps) str
log_glob_match_iff p ps t str pieces nes ht = (
  λ e. (pieces_sound p ps str true (sym (log_glob_match-pieces p ps t str pieces ht) ∙ e)).1,
  λ h. log_glob_match-pieces p ps t str pieces ht ∙ pieces_complete p ps str nes h,
)

search_self : (p : Bytes) → p ≢ [] → search_piece p p ≡ some p
unfolding search_piece
search_self [] ne = absurd (ne refl)
search_self (c ∷ p) ne =
    let here : starts_with (c ∷ p) (c ∷ p) ≡ true =
      subst (λ (u : Bytes). starts_with (c ∷ p) u ≡ true) (append-nil (c ∷ p))
        (starts_with-append (c ∷ p) []) in
    rw here

advance_all : (p : Bytes) → advance (length p) p ≡ some []
advance_all [] = refl
advance_all (c ∷ p) = advance_all p

advance_short : (n : ℕ) (s : Bytes) → length s < n → advance n s ≡ none
advance_short zero s lt = absurd (omega arith)
advance_short (suc n) [] lt = refl
advance_short (suc n) (c ∷ s) lt = advance_short n s (omega arith)

starts_with_short : (p s : Bytes) → length s < length p → starts_with p s ≡ false
starts_with_short [] s lt = absurd (omega arith)
starts_with_short (c ∷ p) [] lt = refl
starts_with_short (c ∷ p) (d ∷ s) lt = ground (arith, starts_with_short p s)

search_short : (p s : Bytes) → length s < length p → search_piece p s ≡ none
unfolding search_piece
search_short p [] lt = refl
search_short p (c ∷ s) lt = rw (starts_with_short p (c ∷ s) lt) (search_short p s (omega arith))

-- A star at the end of a pattern does not stand for nothing: "name*" does not match "name".
pub log_glob_match_trailing :
    (p t : Bytes)
    → IsPiece p
    → p ≢ []
    → char_at t ≢ b'*'
    → log_glob_match (pattern_of p ([] ∷ []) ++ t) p (length (pattern_of p ([] ∷ []))) ≡ some false
log_glob_match_trailing p t h ne ht =
    log_glob_match-pieces p ([] ∷ []) t p (h, (tt, tt)) ht
    ∙ rw (search_self p ne, advance_all p) (unfold search_piece in refl)

-- If the first piece is longer than the category and a star follows, the code goes on behind the
-- end of the category: it reads memory that is not the category's.
pub log_glob_match_overrun :
    (p q : Bytes) (ps : List Bytes) (t str : Bytes)
    → All IsPiece (p ∷ q ∷ ps)
    → length str < length p
    → char_at t ≢ b'*'
    → log_glob_match (pattern_of p (q ∷ ps) ++ t) str (length (pattern_of p (q ∷ ps))) ≡ none
log_glob_match_overrun p q ps t str h lt ht =
    log_glob_match-pieces p (q ∷ ps) t str h ht
    ∙ rw (search_short p str lt, advance_short (length p) str lt)
