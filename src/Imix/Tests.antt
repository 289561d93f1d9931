-- ===== src/Imix/Tests.antt =====
-- Runs of imix_engine.cpp, and its theorems at concrete inputs, over fractions.
use ngfwtraffic_gen.Common.{
  ℕ, ◌≤◌, ◌≡◌, refl, ◌↔◌, inr, ◌≢◌, true, none, some, List, [], ◌∷◌, String, arith, All,
}
use ngfwtraffic_gen.Common.Double.{Fraction, fractions}
use ngfwtraffic_gen.Imix.{
  ImixEntryInternal, ImixEngine, unsupported, validate_from, validate_entries, new_engine,
  select_next_packet_size, select_next_protocol,
}
use ngfwtraffic_gen.Imix.Sample.{counter, counter_documented}
use ngfwtraffic_gen.Imix.Validate.{
  IsSupported, IsSound, IsNan, InRange, total, validate_entries_iff,
}
use ngfwtraffic_gen.Imix.Select.{configures, selects_size, run, run-select_bounds}

abbrev entry : ℕ → Fraction → String → ImixEntryInternal Fraction
entry size share p = record {
  packet_size = size;
  percentage = share;
  protocol = p;
  enable_checksum = true;
}

abbrev classic : List (ImixEntryInternal Fraction)
classic =
    entry 64 (some (58, 1)) "udp"
    ∷ entry 594 (some (67, 2)) "tcp"
    ∷ entry 1518 (some (17, 2)) "udp"
    ∷ []

classic_valid : validate_entries fractions classic ≡ true
unfolding validate_entries validate_from unsupported
classic_valid = refl

abbrev engine : ImixEngine counter
engine = run fractions counter (new_engine fractions counter 1) (configures classic 1000 ∷ [])

validate_entries_iff_example : (validate_entries fractions classic ≡ true) ↔ (
    (classic ≢ [])
    × All (IsSound fractions) classic
    × InRange fractions (total fractions (some (0, 1)) classic))
validate_entries_iff_example = validate_entries_iff fractions classic

none-IsNan : IsNan fractions none
none-IsNan = record {
  never_below = λ x. refl;
  never_above = λ x. ground arith;
  add_left = λ x. refl;
  add_right = λ x. ground arith;
}

-- Two shares of 90 and one NaN.
abbrev broken : List (ImixEntryInternal Fraction)
broken = entry 64 (some (90, 1)) "udp" ∷ entry 64 (some (90, 1)) "tcp" ∷ entry 64 none "icmp" ∷ []

entry_90-IsSound : (p : String) → IsSupported p → IsSound fractions (entry 64 (some (90, 1)) p)
entry_90-IsSound p h = record {
  size_from = omega arith;
  size_to = omega arith;
  not_negative = refl;
  not_above = refl;
  supported = h;
}

entry_nan-IsSound : IsSound fractions (entry 64 none "icmp")
entry_nan-IsSound = record {
  size_from = omega arith;
  size_to = omega arith;
  not_negative = refl;
  not_above = refl;
  supported = inr (inr refl);
}

run-select_bounds_example :
    let m =
      run fractions counter
        (new_engine fractions counter 1)
        (configures classic 1000 ∷ selects_size ∷ []) in
    ((n : ℕ) × ((select_next_packet_size fractions counter m).1 ≡ some n) × (64 ≤ n) × (n ≤ 9000))
    × ((p : String) × ((select_next_protocol fractions counter m).1 ≡ some p) × IsSupported p)
run-select_bounds_example =
    run-select_bounds fractions counter 1 (configures classic 1000 ∷ selects_size ∷ [])
      counter_documented
