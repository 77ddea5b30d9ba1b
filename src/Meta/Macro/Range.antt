-- ===== src/Meta/Macro/Range.antt =====
-- What M_RANGE and M_RANGE_WITH_COMMA of macro.h write.
use tyndall.Base.{
  ◌∙◌, ℕ, zero, suc, ◌+◌, ◌-◌, leb, ◌<◌, ◌≤◌, true, false, if◌then◌else◌, none, some, bind, List,
  [], ◌∷◌, ◌++◌, ◌≡◌, ◌≢◌, refl, sym, arith, Bool-cases, inl, inr, ap,
}
use tyndall.Meta.Macro.{
  m_eval_scans, m_eval, m_not_equal, m_range, m_range_with_comma, Token, item, comma,
}
use tyndall.Meta.Macro.Arithmetic.{m_dec_lem, m_dec_zero, m_not_equal_iff, numbers}

differ : (x y : ℕ) → x ≤ 127 → y ≤ 127 → x ≢ y → m_not_equal x y ≡ true
differ x y hx hy ne = (m_not_equal_iff x y hx hy).1 ne

same : (x : ℕ) → x ≤ 127 → m_not_equal x x ≡ false
same x hx = elim (Bool-cases (m_not_equal x x)) [
  | inl e ↦ absurd ((m_not_equal_iff x x hx hx).0 e refl)
  | inr e ↦ e
]

range_step :
    (rounds start end : ℕ)
    → start ≤ 127
    → end < 127
    → start ≢ end + 1
    → m_range (suc rounds) start (end + 1)
      ≡ bind (m_range rounds start end) (λ items. some (items ++ end ∷ []))
unfolding m_range
range_step rounds start end hs he ne =
    rw (differ start (end + 1) hs (omega arith) ne, m_dec_lem end he)

range_end : (rounds start : ℕ) → start ≤ 127 → m_range (suc rounds) start start ≡ some []
unfolding m_range
range_end rounds start hs = rw (same start hs)

numbers_snoc : (n k : ℕ) → numbers n k ++ (n + k) ∷ [] ≡ numbers n (suc k)
numbers_snoc n zero = let e : n + 0 ≡ n = omega arith in rw (e)
numbers_snoc n (suc k) =
    let e : n + suc k ≡ suc n + k = omega arith in
    rw (e) (ap (λ (t : List ℕ). n ∷ t) (numbers_snoc (suc n) k))

-- M_RANGE expands its macro at start, start + 1, up to the number before start + k, in this order,
-- for an end start + k of at most 127 and more than k rounds.
pub m_range_lem :
    (rounds start k : ℕ)
    → start + k ≤ 127
    → k ≤ rounds
    → m_range (suc rounds) start (start + k) ≡ some (numbers start k)
m_range_lem rounds start zero h enough =
    let e : start + 0 ≡ start = omega arith in rw (e) (range_end rounds start (omega arith))
m_range_lem zero start (suc k) h enough = absurd (omega arith)
m_range_lem (suc rounds) start (suc k) h enough =
    let e : start + suc k ≡ (start + k) + 1 = omega arith in
    rw (e) (
      range_step (suc rounds) start (start + k) (omega arith) (omega arith) (omega arith)
      ∙ rw (m_range_lem rounds start k (omega arith) (omega arith))
          (ap some (numbers_snoc start k)))

range_stuck : (rounds start : ℕ) → start ≤ 127 → 0 < start → m_range rounds start 0 ≡ none
unfolding m_range
range_stuck zero start h lt = refl
range_stuck (suc rounds) start h lt = rw (differ start 0 h (omega arith) (omega arith), m_dec_zero)

-- With an end before its start M_RANGE does not come to an end, however many rounds there are: it
-- counts down to 0 and stays at M_DEC_0, which is not defined.
pub m_range_backwards :
    (rounds start end : ℕ) → start ≤ 127 → end < start → m_range rounds start end ≡ none
m_range_backwards zero start end h lt = unfold m_range in refl
m_range_backwards (suc rounds) start zero h lt = range_stuck (suc rounds) start h lt
m_range_backwards (suc rounds) start (suc end) h lt =
    let e : suc end ≡ end + 1 = omega arith in
    rw (e) (
      range_step rounds start end h (omega arith) (omega arith)
      ∙ rw (m_range_backwards rounds start end h (omega arith)))

m_eval_rounds : 127 < m_eval
unfolding m_eval m_eval_scans
m_eval_rounds = omega arith

range_forward :
    (rounds start end : ℕ)
    → 127 < rounds
    → start ≤ end
    → end ≤ 127
    → m_range rounds start end ≡ some (numbers start (end - start))
range_forward zero start end enough le h = absurd (omega arith)
range_forward (suc rounds) start end enough le h =
    let e : start + (end - start) ≡ end = omega arith in
    ap (λ (n : ℕ). m_range (suc rounds) start n) (sym e)
    ∙ m_range_lem rounds start (end - start) (omega arith) (omega arith)

-- In M_EVAL, for a start and an end up to 127, M_RANGE comes to an end just if its start is not above
-- its end, and has then expanded its macro at every number from the start to below the end, in order.
pub m_range-m_eval :
    (start end : ℕ)
    → start ≤ 127
    → end ≤ 127
    → m_range m_eval start end
      ≡ (if leb start end then some (numbers start (end - start)) else none)
m_range-m_eval start end hs he = elim (Bool-cases (leb start end)) [
  | inl e ↦ rw (e) (range_forward m_eval start end m_eval_rounds (ground arith) he)
  | inr e ↦ rw (e) (m_range_backwards m_eval start end hs (ground arith))
]

-- The numbers with a comma between each two.
abbrev pub separated : ℕ → ℕ → List Token
separated n zero = []
separated n (suc zero) = item n ∷ []
separated n (suc (suc k)) = item n ∷ comma ∷ separated (suc n) (suc k)

separated_snoc :
    (n k : ℕ) → separated n (suc k) ++ (comma ∷ item (n + suc k) ∷ []) ≡ separated n (suc (suc k))
separated_snoc n zero = let e : n + 1 ≡ suc n = omega arith in rw (e)
separated_snoc n (suc k) =
    let e : n + suc (suc k) ≡ suc n + suc k = omega arith in
    rw (e) (ap (λ (t : List Token). item n ∷ comma ∷ t) (separated_snoc (suc n) k))

comma_step :
    (rounds start end : ℕ)
    → start ≤ 127
    → end < 127
    → start ≢ end + 1
    → m_range_with_comma (suc rounds) start (end + 1)
      ≡ bind (m_range_with_comma rounds start end) (λ tokens.
        some (tokens ++ ((if m_not_equal start end then comma ∷ [] else []) ++ item end ∷ [])))
unfolding m_range_with_comma
comma_step rounds start end hs he ne =
    rw (differ start (end + 1) hs (omega arith) ne, m_dec_lem end he)

comma_end : (rounds start : ℕ) → start ≤ 127 → m_range_with_comma (suc rounds) start start ≡ some []
unfolding m_range_with_comma
comma_end rounds start hs = rw (same start hs)

-- M_RANGE_WITH_COMMA writes the same expansions, with a comma between each two and none at the ends.
pub m_range_with_comma_lem :
    (rounds start k : ℕ)
    → start + k ≤ 127
    → k ≤ rounds
    → m_range_with_comma (suc rounds) start (start + k) ≡ some (separated start k)
m_range_with_comma_lem rounds start zero h enough =
    let e : start + 0 ≡ start = omega arith in rw (e) (comma_end rounds start (omega arith))
m_range_with_comma_lem zero start (suc k) h enough = absurd (omega arith)
m_range_with_comma_lem (suc rounds) start (suc zero) h enough = rw (
  comma_step (suc rounds) start start (omega arith) (omega arith) (omega arith),
  comma_end rounds start (omega arith),
  same start (omega arith),
)
m_range_with_comma_lem (suc rounds) start (suc (suc k)) h enough =
    let e : start + suc (suc k) ≡ (start + suc k) + 1 = omega arith in
    rw (e) (
      comma_step (suc rounds) start (start + suc k) (omega arith) (omega arith) (omega arith)
      ∙ rw
          (
            m_range_with_comma_lem rounds start (suc k) (omega arith) (omega arith),
            differ start (start + suc k) (omega arith) (omega arith) (omega arith),
          )
          (ap some (separated_snoc start k)))
