-- ===== src/Imix.antt =====
-- core/scheduler/imix_engine.hpp and imix_engine.cpp, and `IMIXEntryInternal` of
-- core/common/types.hpp. The `double` operations, the random engine and the weighted choice of the
-- C++ library are parameters.
pub mod Validate
pub mod Select
pub mod Sample
mod Tests
use ngfwtraffic_gen.Common.{
  ℕ, String, Bool, true, false, not, ◌&&◌, ◌||◌, Option, none, some, List, [], ◌∷◌, map, length,
  get_elem?, is_empty, ltb, if◌then◌else◌,
}
use ngfwtraffic_gen.Common.Double.{Double}
use mathlib.Core.Option
use text.Mathlib.Text.{◌==◌ as str_eq}

-- `std::mt19937_64` and `std::discrete_distribution<size_t>` over weights of type `W`.
pub record Sampler (W : Type 0) : Type 1 where
  pub Rng : Type 0
  pub seed : ℕ → Rng
  pub Distribution : Type 0
  pub unset : Distribution
  pub of_weights : List W → Distribution
  pub draw : Distribution → Rng → ℕ × Rng

pub record ImixEntryInternal (W : Type 0) : Type 0 where
  pub packet_size : ℕ  -- uint32
  pub percentage : W
  pub protocol : String
  pub enable_checksum : Bool

pub record ImixEngine {W : Type 0} (g : Sampler W) : Type 0 where
  pub entries : List (ImixEntryInternal W)
  pub target_pps : ℕ
  pub configured : Bool
  pub rng : g.Rng
  pub size_distribution : g.Distribution

-- `entry.protocol != "tcp" && entry.protocol != "udp" && entry.protocol != "icmp"`.
unfoldable pub unsupported : String → Bool
unsupported p = not (str_eq p "tcp") && not (str_eq p "udp") && not (str_eq p "icmp")

module _ (d : Double) where
  open d use {Carrier, of_u64, add, lt}

  -- The loop of `validate_entries`, from the entries checked so far and their total, and the test
  -- after it.
  unfoldable pub validate_from : Carrier → List (ImixEntryInternal Carrier) → Bool
  validate_from total [] = not (lt total (of_u64 99) || lt (of_u64 101) total)
  validate_from total (e ∷ entries) =
      let rest = validate_from (add total e.percentage) entries in
      if ltb e.packet_size 64 || ltb 9000 e.packet_size
      then false
      else if lt e.percentage (of_u64 0) || lt (of_u64 100) e.percentage
      then false
      else if unsupported e.protocol
      then false
      else rest

  unfoldable pub validate_entries : List (ImixEntryInternal Carrier) → Bool
  validate_entries [] = false
  validate_entries (e ∷ entries) = validate_from (of_u64 0) (e ∷ entries)

  module _ (g : Sampler Carrier) where
    open g use {seed, unset, of_weights, draw}

    -- `now_s` is what `std::time` returns.
    unfoldable pub new_engine : ℕ → ImixEngine g
    new_engine now_s = record {
      entries = [];
      target_pps = 0;
      configured = false;
      rng = seed now_s;
      size_distribution = unset;
    }

    build : List (ImixEntryInternal Carrier) → ImixEngine g → ImixEngine g
    build [] m = m
    build (e ∷ entries) m = record m {
      size_distribution = of_weights (map (λ x. x.percentage) (e ∷ entries));
    }

    unfoldable pub build_distribution : ImixEngine g → ImixEngine g
    unfolding build
    build_distribution m = build m.entries m

    unfoldable pub configure :
        ImixEngine g → List (ImixEntryInternal Carrier) → ℕ → ImixEngine g × Bool
    configure m entries target_pps =
        if validate_entries entries
        then (
          record (build_distribution (record m { entries = entries; target_pps = target_pps })) {
            configured = true;
          },
          true,
        )
        else (m, false)

    -- `size_distribution_(rng_)` and `entries_[index]`; `none` is a read out of bounds.
    choose : ImixEngine g → ImixEngine g × Option (ImixEntryInternal Carrier)
    choose m =
        let (index, rng) = draw m.size_distribution m.rng in
        (record m { rng = rng }, get_elem? m.entries index)

    unfoldable pub select_next_packet_size : ImixEngine g → ImixEngine g × Option ℕ
    unfolding choose
    select_next_packet_size m =
        if not m.configured || is_empty m.entries
        then (m, some 64)
        else let (m', e) = choose m in (m', Option.map (λ x. x.packet_size) e)

    unfoldable pub select_next_protocol : ImixEngine g → ImixEngine g × Option String
    unfolding choose
    select_next_protocol m =
        if not m.configured || is_empty m.entries
        then (m, some "udp")
        else let (m', e) = choose m in (m', Option.map (λ x. x.protocol) e)

    unfoldable pub reset : ImixEngine g → ImixEngine g
    reset m = record m { entries = []; target_pps = 0; configured = false }

    unfoldable pub get_target_pps : ImixEngine g → ℕ
    get_target_pps m = m.target_pps

    unfoldable pub is_configured : ImixEngine g → Bool
    is_configured m = m.configured

    unfoldable pub get_entries : ImixEngine g → List (ImixEntryInternal Carrier)
    get_entries m = m.entries
