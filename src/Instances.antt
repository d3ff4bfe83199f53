-- ===== src/Instances.antt =====
-- A small world to run the model in: names are texts, each component written after its length, and
-- costs are whole numbers, whose difference is their distance and whose trigonometry is made up.
use ndnproject.Prelude.{
  Double, NdnName, Str, [], arith, false, length, ltb, refl, str_ltb, str_ltb_irrefl, str_ltb_total,
  str_ltb_trans, suc, zero, ℕ, ◌*◌, ◌++◌, ◌+◌, ◌-◌, ◌∷◌, ◌≡◌,
}

-- A name: its last component stands first, after its length.
unfoldable pub append_component : Str → Str → Str
append_component name s = length s ∷ s ++ name

-- How many components a name has; the first argument counts what is left of the current one.
unfoldable pub components : ℕ → Str → ℕ
components k [] = 0
components zero (k ∷ s) = 1 + components k s
components (suc k) (b ∷ s) = components k s

texts-split : (s t a b : Str) → length s ≡ length t → s ++ a ≡ t ++ b → (a ≡ b) × (s ≡ t)
texts-split [] [] a b h e = (e, refl)
texts-split [] (y ∷ t) a b h e = absurd (omega arith)
texts-split (x ∷ s) [] a b h e = absurd (omega arith)
texts-split (x ∷ s) (y ∷ t) a b h e = ground (arith, texts-split s t a b)

pub append_component_injective :
    (a b s t : Str) → append_component a s ≡ append_component b t → (a ≡ b) × (s ≡ t)
unfolding append_component
append_component_injective a b s t h = ground (arith, texts-split s t a b)

instance abbrev pub str_name : NdnName Str
str_name = record {
  empty = [];
  append = append_component;
  size = components 0;
  less = str_ltb;
  append_injective = append_component_injective;
  less_irrefl = str_ltb_irrefl;
  less_total = str_ltb_total;
  less_trans = str_ltb_trans;
}

pub not-ltb_trans : (a b c : ℕ) → ltb b a ≡ false → ltb c b ≡ false → ltb c a ≡ false
not-ltb_trans a b c h k = ground arith

instance abbrev pub whole_double : Double ℕ
whole_double = record {
  lt = ltb;
  of_ℕ = λ a. a;
  sub = λ a b. (a - b) + (b - a);
  mul = λ a b. a * b;
  abs = λ a. a;
  epsilon = 1;
  round = λ a. a;
  trunc = λ a. a;
  ceil = λ a. a;
  neg = λ a. a;
  pi = 3;
  cos = λ a. a;
  cosh = λ a. a;
  sinh = λ a. a;
  acosh = λ a. a;
  lt_asymm = λ a b h. ground arith;
  lt_irrefl = λ a. ground arith;
  not-lt_trans = not-ltb_trans;
}
