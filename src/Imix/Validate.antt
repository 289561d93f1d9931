-- ===== src/Imix/Validate.antt =====
-- `validate_entries` of imix_engine.cpp.
use text.Mathlib.TextEquality.{eq_iff}
use ngfwtraffic_gen.Common.{
  ◌≤◌, ◌≡◌, refl, ◌↔◌, ◌⊎◌, inl, inr, ◌≢◌, true, false, List, [], ◌∷◌, All, String, arith,
}
use ngfwtraffic_gen.Common.Double.{Double}
use ngfwtraffic_gen.Imix.{ImixEntryInternal, unsupported, validate_from, validate_entries}

abbrev pub IsSupported : String → Type 0
IsSupported p = (p ≡ "tcp") ⊎ (p ≡ "udp") ⊎ (p ≡ "icmp")

unsupported_iff : (p : String) → (unsupported p ≡ false) ↔ IsSupported p
unfolding unsupported
unsupported_iff p = ground (arith, eq_iff p "tcp", eq_iff p "udp", eq_iff p "icmp")

module _ (d : Double) where
  open d use {Carrier, of_u64, add, lt}

  pub record IsSound (e : ImixEntryInternal Carrier) : Type 0 where
    pub size_from : 64 ≤ e.packet_size
    pub size_to : e.packet_size ≤ 9000
    pub not_negative : lt e.percentage (of_u64 0) ≡ false
    pub not_above : lt (of_u64 100) e.percentage ≡ false
    pub supported : IsSupported e.protocol

  abbrev pub total : Carrier → List (ImixEntryInternal Carrier) → Carrier
  total acc [] = acc
  total acc (e ∷ entries) = total (add acc e.percentage) entries

  abbrev pub InRange : Carrier → Type 0
  InRange t = (lt t (of_u64 99) ≡ false) × (lt (of_u64 101) t ≡ false)

  validate_from_iff :
      (acc : Carrier) (entries : List (ImixEntryInternal Carrier))
      → (validate_from d acc entries ≡ true) ↔ (All IsSound entries × InRange (total acc entries))
  unfolding validate_from
  validate_from_iff acc [] = ground arith
  validate_from_iff acc (e ∷ entries) =
      ground (arith, unsupported_iff e.protocol, validate_from_iff (add acc e.percentage) entries)

  -- A profile is valid exactly when it has entries, each has a size of 64 to 9000 bytes, a share
  -- that is neither below 0 nor above 100 and a protocol that is supported, and the shares add up,
  -- in order, to a total that is neither below 99 nor above 101.
  pub validate_entries_iff :
      (entries : List (ImixEntryInternal Carrier))
      → (validate_entries d entries ≡ true)
        ↔ ((entries ≢ []) × All IsSound entries × InRange (total (of_u64 0) entries))
  unfolding validate_entries
  validate_entries_iff [] = (λ e. cc, λ h. absurd (h.0 refl))
  validate_entries_iff (e ∷ entries) = (
    λ h. (
      λ q. cc,
      ((validate_from_iff (of_u64 0) (e ∷ entries)).0 h).0,
      ((validate_from_iff (of_u64 0) (e ∷ entries)).0 h).1,
    ),
    λ h. (validate_from_iff (of_u64 0) (e ∷ entries)).1 (h.1, h.2),
  )

  -- A value that compares with nothing and swallows sums, as the NaN of IEEE 754 does.
  pub record IsNan (nan : Carrier) : Type 0 where
    pub never_below : (x : Carrier) → lt nan x ≡ false
    pub never_above : (x : Carrier) → lt x nan ≡ false
    pub add_left : (x : Carrier) → add nan x ≡ nan
    pub add_right : (x : Carrier) → add x nan ≡ nan

  module _ (nan : Carrier) (is_nan : IsNan nan) where
    total_nan : (entries : List (ImixEntryInternal Carrier)) → total nan entries ≡ nan
    total_nan [] = refl
    total_nan (e ∷ entries) = rw (is_nan.add_left e.percentage) (total_nan entries)

    -- An entry whose share is `nan` somewhere in the list.
    abbrev pub HasNan : List (ImixEntryInternal Carrier) → Type 0
    HasNan [] = ⊥
    HasNan (e ∷ entries) = (e.percentage ≡ nan) ⊎ HasNan entries

    total-HasNan :
        (acc : Carrier) (entries : List (ImixEntryInternal Carrier))
        → HasNan entries
        → total acc entries ≡ nan
    total-HasNan acc [] h = absurd h
    total-HasNan acc (e ∷ entries) (inl p) = rw (p, is_nan.add_right acc) (total_nan entries)
    total-HasNan acc (e ∷ entries) (inr h) = total-HasNan (add acc e.percentage) entries h

    -- A share that compares with nothing and swallows sums, as NaN does, disables the check of the
    -- total: a list of entries that are sound one by one is accepted as soon as one share is NaN,
    -- whatever the others add up to.
    pub validate_entries_nan :
        (entries : List (ImixEntryInternal Carrier))
        → All IsSound entries
        → HasNan entries
        → validate_entries d entries ≡ true
    validate_entries_nan [] s h = absurd h
    validate_entries_nan (e ∷ entries) s h = (validate_entries_iff (e ∷ entries)).1 (
      λ q. cc,
      s,
      rw (total-HasNan (of_u64 0) (e ∷ entries) h) (is_nan.never_below _, is_nan.never_above _),
    )
