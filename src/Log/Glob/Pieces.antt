-- ===== src/Log/Glob/Pieces.antt =====
-- `log_glob_match` on a pattern is a loop over the pieces between the stars.
use tyndall.Base.{
  ℕ, zero, suc, ◌+◌, ◌-◌, ◌<◌, ◌≤◌, Bool, true, if◌then◌else◌, ◌==◌, ne→==, ltb, Option, none, some,
  Bytes, List, [], ◌∷◌, ◌++◌, append_assoc, take, drop, length, length-append, char_at, index_of,
  index_of-append, take-append, drop-append, Lacks, shift, bind, bind_ext, All, ◌≡◌, ◌≢◌, refl,
  arith,
}
use tyndall.Log.Glob.{
  advance, piece_length, search_piece, found_or, still, glob_loop, log_glob_match,
}

-- A piece of a pattern holds no star.
abbrev pub IsPiece : Bytes → Type 0
IsPiece = Lacks b'*'

-- The pattern of a first piece and the others.
abbrev pub pattern_of : Bytes → List Bytes → Bytes
pattern_of p [] = p
pattern_of p (q ∷ ps) = p ++ (b'*' ∷ pattern_of q ps)

-- The loop over the pieces.
abbrev pub pieces_loop : Bytes → List Bytes → Bytes → Bool → Option Bool
pieces_loop p [] str ret = some (still (search_piece p str) ret)
pieces_loop p (q ∷ ps) str ret =
    bind (advance (length p) (found_or (search_piece p str) str))
      (λ s. pieces_loop q ps s (still (search_piece p str) ret))

piece_length-star :
    (p t : Bytes) (left : ℕ)
    → IsPiece p
    → length p ≤ left
    → piece_length (p ++ (b'*' ∷ t)) left ≡ length p
unfolding piece_length
piece_length-star p t left h le =
    rw (piece_length, index_of-append b'*' p (b'*' ∷ t) h) (ground arith)

-- The last piece ends where the pattern does.
piece_length-last : (p t : Bytes) → IsPiece p → piece_length (p ++ t) (length p) ≡ length p
unfolding piece_length
piece_length-last p t h =
    rw (piece_length, index_of-append b'*' p t h) (not_past (length p) (index_of b'*' t))
  where
    not_past :
        (n : ℕ) (o : Option ℕ)
        → ◌≡◌ {A = ℕ} (elim (shift n o) [ none ↦ n | some i ↦ if ltb n i then n else i ]) n
    not_past n none = refl
    not_past n (some j) = ground arith

-- A round of the loop on a piece of length `len`.
glob_step :
    (fuel left len : ℕ) (pat str : Bytes) (ret : Bool)
    → piece_length pat left ≡ len
    → glob_loop (suc fuel) pat left str ret ≡ (
        if char_at (drop len pat) == b'*'
        then bind (advance len (found_or (search_piece (take len pat) str) str)) (λ s.
          glob_loop fuel
            (drop 1 (drop len pat))
            (left - len - 1)
            s
            (still (search_piece (take len pat) str) ret))
        else some (still (search_piece (take len pat) str) ret))
unfolding glob_loop
glob_step fuel left len pat str ret e = rw (← e)

-- On a pattern with a byte behind it that is no star, the loop of log.cpp is the loop over pieces.
glob_loop-pieces :
    (p : Bytes) (ps : List Bytes) (t str : Bytes) (ret : Bool) (fuel : ℕ)
    → All IsPiece (p ∷ ps)
    → char_at t ≢ b'*'
    → length (pattern_of p ps) < fuel
    → glob_loop fuel (pattern_of p ps ++ t) (length (pattern_of p ps)) str ret
      ≡ pieces_loop p ps str ret
glob_loop-pieces p ps t str ret zero h ht lt = absurd (omega arith)
glob_loop-pieces p [] t str ret (suc fuel) (h, _) ht lt =
    rw
      (
        glob_step fuel (length p) (length p) (p ++ t) str ret (piece_length-last p t h),
        take-append,
        drop-append,
        ne→== (char_at t) b'*' ht,
      )
      refl
glob_loop-pieces p (q ∷ ps) t str ret (suc fuel) (h, hs) ht lt =
    let rest = pattern_of q ps in
    let size : length (p ++ (b'*' ∷ rest)) ≡ length p + suc (length rest) =
      omega (arith, length-append p (b'*' ∷ rest)) in
    let left : length p + suc (length rest) - length p - 1 ≡ length rest = omega arith in
    rw
      (
        append_assoc p (b'*' ∷ rest) t,
        size,
        glob_step fuel (length p + suc (length rest)) (length p) (p ++ (b'*' ∷ (rest ++ t))) str ret
            (piece_length-star p (rest ++ t) _ h (omega arith)),
        take-append,
        drop-append,
        left,
      )
      (bind_ext (advance (length p) (found_or (search_piece p str) str)) (λ s.
        glob_loop-pieces q ps t s (still (search_piece p str) ret) fuel hs ht
          (omega (arith, size))))

-- The match of a category with the pattern in front of a byte that is no star.
pub log_glob_match-pieces :
    (p : Bytes) (ps : List Bytes) (t str : Bytes)
    → All IsPiece (p ∷ ps)
    → char_at t ≢ b'*'
    → log_glob_match (pattern_of p ps ++ t) str (length (pattern_of p ps))
      ≡ pieces_loop p ps str true
unfolding log_glob_match
log_glob_match-pieces p ps t str h ht =
    glob_loop-pieces p ps t str true (suc (length (pattern_of p ps))) h ht (omega arith)
