-- ===== src/Prelude/Ndn.antt =====
-- What the program takes from outside its sources: `ndn::Name` of ndn-cxx and the processor's
-- `double`. Each is a record of the operations that are called, with their documented laws.
use Prim.Native.Nat.{ℕ}
use mathlib.Core.Path.{◌≡◌}
use mathlib.Core.Bool.{Bool, true, false}
use ndnproject.Prelude.Tests.{Str}

-- `ndn::Name`, beside its equality (an `Eq` instance): the empty name, `append` of one component, the canonical
-- order `<`, and the number of components.
pub record NdnName (Name : Type 0) : Type 0 where
  pub empty : Name
  pub append : Name → Str → Name
  pub size : Name → ℕ
  pub less : Name → Name → Bool
  pub append_injective : (a b : Name) (s t : Str) → append a s ≡ append b t → (a ≡ b) × (s ≡ t)
  pub less_irrefl : (a : Name) → less a a ≡ false
  pub less_total : (a b : Name) → less a b ≡ false → less b a ≡ false → a ≡ b
  pub less_trans : (a b c : Name) → less b a ≡ false → less c b ≡ false → less c a ≡ false

-- `double`, for values that are numbers: the comparison, whole numbers as doubles, subtraction,
-- `std::abs`, multiplication, `round`, the casts of a double and of its `ceil` to uint64_t, and what
-- <cmath> has for hyperbolic routing.
pub record Double (D : Type 0) : Type 0 where
  pub lt : D → D → Bool
  pub of_ℕ : ℕ → D
  pub sub : D → D → D
  pub mul : D → D → D
  pub abs : D → D
  pub epsilon : D
  pub round : D → D
  pub trunc : D → ℕ
  pub ceil : D → ℕ
  pub neg : D → D
  pub pi : D
  pub cos : D → D
  pub cosh : D → D
  pub sinh : D → D
  pub acosh : D → D
  pub lt_asymm : (a b : D) → lt a b ≡ true → lt b a ≡ false
  pub lt_irrefl : (a : D) → lt a a ≡ false
  pub not-lt_trans : (a b c : D) → lt b a ≡ false → lt c b ≡ false → lt c a ≡ false
