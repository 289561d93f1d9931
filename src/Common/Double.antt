-- ===== src/Common/Double.antt =====
-- What the program does with a `double`, taken as a parameter: there are no floats here.
use Prim.Native.Nat.{ℕ, ◌+◌, ◌*◌}
use mathlib.Core.Bool.{Bool, false}
use mathlib.Core.Option.{Option, none, some}
use ngfwtraffic_gen.Common.Booleans.{ltb, leb, if◌then◌else◌, ◌==◌}

-- `of_u64` is `static_cast<double>` of an integer, and a literal with no fraction.
pub record Double : Type 1 where
  pub Carrier : Type 0
  pub of_u64 : ℕ → Carrier
  pub add : Carrier → Carrier → Carrier
  pub mul : Carrier → Carrier → Carrier
  pub div : Carrier → Carrier → Carrier
  pub lt : Carrier → Carrier → Bool
  pub le : Carrier → Carrier → Bool

-- Fractions of natural numbers, with `none` for NaN: an instance to run the code with.
abbrev pub Fraction : Type 0
Fraction = Option (ℕ × ℕ)

abbrev pub on_parts {ℓ} : {A : Type ℓ} → A → (ℕ → ℕ → ℕ → ℕ → A) → Fraction → Fraction → A
on_parts nan f (some (a, b)) (some (c, d)) = f a b c d
on_parts nan f _ _ = nan

abbrev pub fractions : Double
fractions = record {
  Carrier = Fraction;
  of_u64 = λ n. some (n, 1);
  add = on_parts none (λ a b c d. some (a * d + c * b, b * d));
  mul = on_parts none (λ a b c d. some (a * c, b * d));
  div = on_parts none (λ a b c d. if c == 0 then none else some (a * d, b * c));
  lt = on_parts false (λ a b c d. ltb (a * d) (c * b));
  le = on_parts false (λ a b c d. leb (a * d) (c * b));
}
