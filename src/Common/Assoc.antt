-- ===== src/Common/Assoc.antt =====
-- Maps as association lists in the order in which they are iterated. A new key goes to the end.
use mathlib.Core.Path.{◌≡◌, refl}
use mathlib.Core.Logic.{◌↔◌}
use mathlib.Core.Bool.{Bool, true}
use mathlib.Core.Option
use mathlib.Core.Option.{Option, none, some}
use mathlib.Core.List.{List, [], ◌∷◌}
use native.Mathlib.Omega.{arith}
use Prim.Native.Nat.{ℕ}
use mathlib.Core.Logic.{inl, inr}
use ngfwtraffic_gen.Common.Lists.{All}
use ngfwtraffic_gen.Common.Booleans.{if◌then◌else◌, Bool-cases, ◌==◌ as nat_eq, ==_iff}

-- A key type with the equality test that the map uses.
pub record Key {ℓ} (K : Type ℓ) : Type ℓ where
  pub beq : K → K → Bool
  pub beq_iff : (a b : K) → (beq a b ≡ true) ↔ (a ≡ b)

instance abbrev pub nat_key : Key ℕ
nat_key = record { beq = nat_eq; beq_iff = ==_iff }

pub beq_refl {ℓ} : {K : Type ℓ} ⦃e : Key K⦄ (k : K) → e.beq k k ≡ true
beq_refl ⦃e⦄ k = (e.beq_iff k k).1 refl

module _ {ℓ κ} {K : Type ℓ} {V : Type κ} ⦃e : Key K⦄ where
  unfoldable pub find : K → List (K × V) → Option V
  find k [] = none
  find k ((j, v) ∷ m) = if e.beq j k then some v else find k m

  -- `m[k] = v`.
  unfoldable pub insert : K → V → List (K × V) → List (K × V)
  insert k v [] = (k, v) ∷ []
  insert k v ((j, w) ∷ m) = if e.beq j k then (k, v) ∷ m else (j, w) ∷ insert k v m

  unfoldable pub erase : K → List (K × V) → List (K × V)
  erase k [] = []
  erase k ((j, w) ∷ m) = let rest = erase k m in if e.beq j k then rest else (j, w) ∷ rest

  -- A change of the value at a key, if it is there.
  unfoldable pub adjust : K → (V → V) → List (K × V) → List (K × V)
  adjust k f [] = []
  adjust k f ((j, w) ∷ m) = if e.beq j k then (j, f w) ∷ m else (j, w) ∷ adjust k f m

  pub find-insert :
      (k j : K) (v : V) (m : List (K × V))
      → find j (insert k v m) ≡ (if e.beq k j then some v else find j m)
  unfolding find insert
  find-insert k j v [] = refl
  find-insert k j v ((i, w) ∷ m) =
      ground (arith, e.beq_iff k j, e.beq_iff i k, e.beq_iff i j, find-insert k j v m)

  pub find-erase :
      (k j : K) (m : List (K × V)) → find j (erase k m) ≡ (if e.beq k j then none else find j m)
  unfolding find erase
  find-erase k j [] = ground arith
  find-erase k j ((i, w) ∷ m) =
      ground (arith, e.beq_iff k j, e.beq_iff i k, e.beq_iff i j, find-erase k j m)

  pub find-adjust :
      (k j : K) (f : V → V) (m : List (K × V))
      → find j (adjust k f m) ≡ (if e.beq k j then Option.map f (find j m) else find j m)
  unfolding find adjust
  find-adjust k j f [] = ground arith
  find-adjust k j f ((i, w) ∷ m) =
      ground (arith, e.beq_iff k j, e.beq_iff i k, e.beq_iff i j, find-adjust k j f m)

-- What holds of every entry.
module _ {ℓ κ μ} {K : Type ℓ} {V : Type κ} ⦃e : Key K⦄ (P : K × V → Type μ) where
  pub All-insert : (k : K) (v : V) (m : List (K × V)) → P (k, v) → All P m → All P (insert k v m)
  unfolding insert
  All-insert k v [] p h = (p, tt)
  All-insert k v ((j, w) ∷ m) p h = elim (Bool-cases (e.beq j k)) [
    | inl hit ↦ rw hit (p, h.1)
    | inr miss ↦ rw miss (h.0, All-insert k v m p h.1)
  ]

  pub All-erase : (k : K) (m : List (K × V)) → All P m → All P (erase k m)
  unfolding erase
  All-erase k [] h = tt
  All-erase k ((j, w) ∷ m) h = elim (Bool-cases (e.beq j k)) [
    | inl hit ↦ rw hit (All-erase k m h.1)
    | inr miss ↦ rw miss (h.0, All-erase k m h.1)
  ]

  pub All-adjust :
      (k : K) (f : V → V) (m : List (K × V))
      → ((j : K) (v : V) → P (j, v) → P (j, f v))
      → All P m
      → All P (adjust k f m)
  unfolding adjust
  All-adjust k f [] step h = tt
  All-adjust k f ((j, w) ∷ m) step h = elim (Bool-cases (e.beq j k)) [
    | inl hit ↦ rw hit (step j w h.0, h.1)
    | inr miss ↦ rw miss (h.0, All-adjust k f m step h.1)
  ]
