-- ===== src/Debug/Builds.antt =====
-- The two builds of a program that uses debug.h, with DEBUG and without.
use tyndall.Base.{
  Bool, true, false, Bool-cases, inl, inr, Option, none, some, Bytes, List, ◌↔◌, ◌≡◌, ◌≢◌, refl, ap,
}
use tyndall.Debug.{
  Stdio, Site, goes_on, or_exit, evaluated, debug, debug_plain, debug_instant, debug_error,
  debug_error_plain, debug_assert, debug_nothing,
}

pair_inj {ℓ ℓ'} : {A : Type ℓ} {B : Type ℓ'} {p q : A × B} → p ≡ q → (p.0 ≡ q.0) × (p.1 ≡ q.1)
pair_inj e = (ap (λ p. p.0) e, ap (λ p. p.1) e)

leaves {ℓ} : {R : Type ℓ} (result : Option R) → or_exit result ≢ goes_on
leaves none e = cc
leaves (some r) e = cc

module _ {ℓ} {W : Type ℓ} (io : Stdio W) (site : Site) where
  -- Without DEBUG no macro prints, no argument and no condition of one is evaluated, and the program
  -- goes on behind it, whether or not the condition would have held.
  pub debug_without :
      (format : Bytes) (args : W → List Bytes × W) (cond : W → Bool × W)
      (statement : W → Option Bool × W) (w : W)
      → (debug io site false format args w ≡ w)
        × (debug_plain io site false format args w ≡ w)
        × (debug_instant io site false format args w ≡ w)
        × (debug_error io site false format args w ≡ w)
        × (debug_error_plain io site false format args w ≡ w)
        × (debug_assert io site false cond format statement w ≡ (goes_on, w))
  unfolding debug debug_plain debug_instant debug_error debug_error_plain debug_assert evaluated
      debug_nothing
  debug_without format args cond statement w = (refl, refl, refl, refl, refl, refl)

  -- The two builds do the same at a `debug_assert` just if its condition holds and changes nothing.
  pub debug_assert_iff :
      (cond : W → Bool × W) (text : Bytes) (statement : W → Option Bool × W) (w : W)
      → (debug_assert io site true cond text statement w
          ≡ debug_assert io site false cond text statement w)
        ↔ (cond w ≡ (true, w))
  unfolding debug_assert evaluated
  debug_assert_iff cond text statement w = elim (Bool-cases (cond w).0) [
    | inl holds ↦
        rw (holds)
          (λ e. ap (λ v. (true, v)) (pair_inj e).1, λ e. ap (λ v. (goes_on, v)) (pair_inj e).1)
    | inr fails ↦
        rw (fails) (λ e. absurd (leaves _ (pair_inj e).0), λ e. absurd (cc ((pair_inj e).0)))
  ]
