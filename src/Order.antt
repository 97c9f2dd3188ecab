-- ===== src/Order.antt =====
-- What the templates ask of a key type: `operator<`, and the laws of a strict total order
-- (rbtree.hpp, Merge.hpp and Read.hpp compare keys by `<` alone and read "neither is smaller" as
-- equality).
use cs.Prelude.{Bool, true, false, ◌≡◌, arith}

pub record IsOrder {ℓ} {K : Type ℓ} (lt : K → K → Bool) : Type ℓ where
  pub irrefl : (a : K) → lt a a ≡ false
  pub trans : (a b c : K) → lt a b ≡ true → lt b c ≡ true → lt a c ≡ true
  pub tri : (a b : K) → lt a b ≡ false → lt b a ≡ false → a ≡ b

pub record Ord {ℓ} (K : Type ℓ) : Type ℓ where
  pub lt : K → K → Bool
  pub lawful : IsOrder lt
  pub open lawful use *

infix 50 ◌<?◌ ◌≺◌
abbrev pub ◌<?◌ {ℓ} : {K : Type ℓ} ⦃o : Ord K⦄ → K → K → Bool
◌<?◌ ⦃o⦄ = o.lt

abbrev pub ◌≺◌ {ℓ} : {K : Type ℓ} ⦃o : Ord K⦄ → K → K → Type 0
◌≺◌ ⦃o⦄ a b = o.lt a b ≡ true

module _ {ℓ} {K : Type ℓ} ⦃o : Ord K⦄ where
  -- Two keys are equal for the code when neither is smaller.
  abbrev pub same : K → K → Bool
  same a b = elim (a <? b) [ true ↦ false | false ↦ elim (b <? a) [ true ↦ false | false ↦ true ] ]

  pub lt_asymm : (a b : K) → a ≺ b → (b <? a) ≡ false
  lt_asymm a b = ground (arith, o.irrefl a, o.trans a b a)

  pub same_refl : (a : K) → same a a ≡ true
  same_refl a = ground (arith, o.irrefl a)

  pub eq_of_same : (a b : K) → same a b ≡ true → a ≡ b
  eq_of_same a b = ground (arith, o.tri a b)

  pub same_comm : (a b : K) → same a b ≡ same b a
  same_comm a b = ground (arith, lt_asymm a b, lt_asymm b a)
