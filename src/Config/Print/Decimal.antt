-- ===== src/Config/Print/Decimal.antt =====
-- `strtoull` reads a printed number back.
use ngfwtraffic_gen.Common.{
  ℕ, zero, suc, ◌+◌, ◌*◌, ◌/◌, ◌%◌, ◌^◌, ◌<◌, ◌≡◌, refl, ◌∙◌, Bool, true, false, some, [], ◌∷◌,
  ◌++◌, Bytes, arith,
}
use ngfwtraffic_gen.Config.Number.{is_digit, digits_value, signed, strtoull}
use ngfwtraffic_gen.Config.Print.Find.{all}
use ngfwtraffic_gen.Config.Print.{digits}
use ngfwtraffic_gen.Config.Scan.{is_space, skip_space}

abbrev pub starts_digit : Bytes → Bool
starts_digit [] = false
starts_digit (c ∷ s) = is_digit c

starts_digit-more :
    (fuel n : ℕ) (rest : Bytes)
    → starts_digit rest ≡ true
    → starts_digit (digits fuel n rest) ≡ true
unfolding digits
starts_digit-more zero n rest h = h
starts_digit-more (suc fuel) n rest h =
    ground (arith, starts_digit-more fuel (n / 10) ((b'0' + n % 10) ∷ rest))

pub starts_digit-digits :
    (fuel n : ℕ) (rest : Bytes) → starts_digit (digits (suc fuel) n rest) ≡ true
unfolding digits
starts_digit-digits fuel n rest =
    ground (arith, starts_digit-more fuel (n / 10) ((b'0' + n % 10) ∷ rest))

pub digits-append :
    (fuel n : ℕ) (s rest : Bytes) → digits fuel n (s ++ rest) ≡ digits fuel n s ++ rest
unfolding digits
digits-append zero n s rest = refl
digits-append (suc fuel) n s rest =
    ground (arith, digits-append fuel (n / 10) ((b'0' + n % 10) ∷ s) rest)

pub all-digits :
    (p : ℕ → Bool) (h : (c : ℕ) → is_digit c ≡ true → p c ≡ true) (fuel n : ℕ) (s : Bytes)
    → all p s ≡ true
    → all p (digits fuel n s) ≡ true
unfolding digits
all-digits p h zero n s e = e
all-digits p h (suc fuel) n s e =
    ground
      (arith, h (b'0' + n), h (b'0' + n % 10), all-digits p h fuel (n / 10) ((b'0' + n % 10) ∷ s))

abbrev pow10 : ℕ → ℕ
pow10 zero = 1
pow10 (suc fuel) = 10 * pow10 fuel

digits_value-digits :
    (fuel n : ℕ) (rest : Bytes)
    → n < pow10 (suc fuel)
    → digits_value 0 (digits (suc fuel) n rest) ≡ digits_value n rest
unfolding digits_value digits
digits_value-digits zero n rest h = ground arith
digits_value-digits (suc fuel) n rest h =
    ground (arith, digits_value-digits fuel (n / 10) ((b'0' + n % 10) ∷ rest))

digits_value-space : (n : ℕ) (gap : Bytes) → all is_space gap ≡ true → digits_value n gap ≡ n
unfolding digits_value
digits_value-space n [] h = refl
digits_value-space n (c ∷ s) h = ground arith

skip_space-starts_digit : (s : Bytes) → starts_digit s ≡ true → skip_space s ≡ s
unfolding skip_space
skip_space-starts_digit [] h = refl
skip_space-starts_digit (c ∷ s) h = ground arith

signed-starts_digit :
    (s : Bytes)
    → starts_digit s ≡ true
    → digits_value 0 s < 2 ^ 64
    → signed s ≡ some (digits_value 0 s)
unfolding signed
signed-starts_digit [] h l = ground arith
signed-starts_digit (c ∷ s) h l = ground arith

-- A printed number of 64 bits is read back, also before white space.
pub strtoull-digits :
    (n : ℕ) (gap : Bytes)
    → n < 2 ^ 64
    → all is_space gap ≡ true
    → strtoull (digits 20 n gap) ≡ some n
unfolding strtoull
strtoull-digits n gap l h =
    let front = starts_digit-digits 19 n gap in
    let value : digits_value 0 (digits 20 n gap) ≡ n =
      digits_value-digits 19 n gap (omega arith) ∙ digits_value-space n gap h in
    rw (skip_space-starts_digit (digits 20 n gap) front)
      (signed-starts_digit (digits 20 n gap) front (omega arith) ∙ rw value refl)
