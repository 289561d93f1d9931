-- ===== src/Config/Print/Raw.antt =====
-- `raw_at` cuts a printed value out of the text that follows it.
use mathlib.Core.List.{append_assoc}
use ngfwtraffic_gen.Common.{
  ℕ, ◌≡◌, refl, sym, ap, ◌∙◌, Bool, true, false, not, ◌&&◌, ◌||◌, some, [], ◌∷◌, ◌++◌, Bytes, ◌==◌,
  ==_refl, arith,
}
use ngfwtraffic_gen.Config.Print.Decimal.{
  starts_digit, starts_digit-digits, digits-append, all-digits,
}
use ngfwtraffic_gen.Config.Print.Find.{all, all_mono, all-append}
use ngfwtraffic_gen.Config.Print.{number, flag, flag_text, digits, pad, print_scalar}
use ngfwtraffic_gen.Config.Scan.{
  is_space, skip_space, up_to_quote, up_to_close, up_to_end, first_or_empty, or_empty, cons?,
  on_first, raw_at,
}

abbrev pub not_end : ℕ → Bool
not_end c = not (c == b',' || c == b'}' || c == b']')

-- A text that begins with a byte at which a number ends.
abbrev pub ends : Bytes → Bool
ends [] = true
ends (c ∷ s) = not (not_end c)

abbrev pub plain_byte : ℕ → Bool
plain_byte c = not (c == b'"') && not (c == b'\\')

abbrev pub outside : ℕ → ℕ → ℕ → Bool
outside left right c = not (c == left) && not (c == right)

up_to_end-append :
    (v rest : Bytes) → all not_end v ≡ true → ends rest ≡ true → up_to_end (v ++ rest) ≡ v
unfolding up_to_end
up_to_end-append [] [] h e = refl
up_to_end-append [] (c ∷ rest) h e = ground arith
up_to_end-append (c ∷ v) rest h e = ground (arith, up_to_end-append v rest)

raw_at-digit : (s : Bytes) → starts_digit s ≡ true → raw_at (skip_space s) ≡ up_to_end s
unfolding raw_at skip_space
raw_at-digit [] h = ground arith
raw_at-digit (c ∷ s) h = ground arith

pub up_to_quote-append :
    (before : ℕ) (v rest : Bytes)
    → (before == b'\\') ≡ false
    → all plain_byte v ≡ true
    → up_to_quote before (v ++ (b'"' ∷ rest)) ≡ some (v ++ (b'"' ∷ []))
unfolding up_to_quote cons?
up_to_quote-append before [] rest n h = ground arith
up_to_quote-append before (c ∷ v) rest n h = ground (arith, up_to_quote-append c v rest)

-- A string value is the quoted text.
pub raw_at-text :
    (v rest : Bytes)
    → all plain_byte v ≡ true
    → raw_at (skip_space (b'"' ∷ (v ++ (b'"' ∷ rest)))) ≡ b'"' ∷ (v ++ (b'"' ∷ []))
unfolding raw_at skip_space cons? or_empty
raw_at-text v rest h = rw (up_to_quote-append b'"' v rest refl h) refl

-- Text with neither bracket is passed over, up to the closing one.
pub up_to_close-append :
    (left right : ℕ) (v rest : Bytes)
    → (right == left) ≡ false
    → all (outside left right) v ≡ true
    → up_to_close left right 1 (v ++ (right ∷ rest)) ≡ some (v ++ (right ∷ []), rest)
unfolding up_to_close on_first
up_to_close-append left right [] rest n h = ground (arith, ==_refl right)
up_to_close-append left right (c ∷ v) rest n h =
    ground (arith, up_to_close-append left right v rest)

-- An object is its text up to its brace.
pub raw_at-object :
    (v rest : Bytes)
    → all (outside b'{' b'}') v ≡ true
    → raw_at (skip_space (b'{' ∷ (v ++ (b'}' ∷ rest)))) ≡ b'{' ∷ (v ++ (b'}' ∷ []))
unfolding raw_at skip_space first_or_empty on_first
raw_at-object v rest h = rw (up_to_close-append b'{' b'}' v rest refl h) refl

-- An array is its text up to its bracket.
pub raw_at-array :
    (v rest : Bytes)
    → all (outside b'[' b']') v ≡ true
    → raw_at (skip_space (b'[' ∷ (v ++ (b']' ∷ rest)))) ≡ b'[' ∷ (v ++ (b']' ∷ []))
unfolding raw_at skip_space first_or_empty on_first
raw_at-array v rest h = rw (up_to_close-append b'[' b']' v rest refl h) refl

module _ (gap : Bytes → Bytes) (spaces : (r : Bytes) → all is_space (gap r) ≡ true) where
  gap_not_end : (r : Bytes) → all not_end (gap r) ≡ true
  gap_not_end r = all_mono is_space not_end (λ c h. ground arith) (gap r) (spaces r)

  -- A number is its digits, and the white space behind them.
  pub raw_at-number :
      (n : ℕ) (rest : Bytes)
      → ends rest ≡ true
      → raw_at (skip_space (print_scalar gap (number n) rest)) ≡ digits 20 n (gap rest)
  raw_at-number n rest e =
      raw_at-digit (digits 20 n (pad gap rest)) (starts_digit-digits 19 n (pad gap rest))
      ∙ ap up_to_end (digits-append 20 n (gap rest) rest)
      ∙ up_to_end-append (digits 20 n (gap rest)) rest
          (all-digits not_end (λ c h. ground arith) 20 n (gap rest) (gap_not_end rest)) e

  flag_not_end : (b : Bool) → all not_end (flag_text b) ≡ true
  flag_not_end true = refl
  flag_not_end false = refl

  raw_at-flag_text :
      (b : Bool) (s : Bytes) → raw_at (skip_space (flag_text b ++ s)) ≡ up_to_end (flag_text b ++ s)
  unfolding raw_at skip_space
  raw_at-flag_text true s = refl
  raw_at-flag_text false s = refl

  pub raw_at-flag :
      (b : Bool) (rest : Bytes)
      → ends rest ≡ true
      → raw_at (skip_space (print_scalar gap (flag b) rest)) ≡ flag_text b ++ gap rest
  raw_at-flag b rest e =
      raw_at-flag_text b (pad gap rest)
      ∙ ap up_to_end (sym (append_assoc (flag_text b) (gap rest) rest))
      ∙ up_to_end-append (flag_text b ++ gap rest) rest
          (all-append not_end (flag_text b) (gap rest) (flag_not_end b) (gap_not_end rest)) e
