-- ===== src/Imix/Sample.antt =====
-- A sampler to run imix_engine.cpp with.
use ngfwtraffic_gen.Common.{ℕ, ◌+◌, ◌%◌, length, arith}
use ngfwtraffic_gen.Common.Double.{Fraction}
use ngfwtraffic_gen.Imix.{Sampler}
use ngfwtraffic_gen.Imix.Select.{DrawsInRange}

-- A sampler that counts: the number of draws modulo the number of weights.
abbrev pub counter : Sampler Fraction
counter = record {
  Rng = ℕ;
  seed = λ n. n;
  Distribution = ℕ;
  unset = 1;
  of_weights = length;
  draw = λ n r. (r % n, r + 1);
}

pub counter_documented : DrawsInRange counter
counter_documented = record { draw_lt = λ w ws r. omega arith }
