-- ===== src/Config/Print/Lookup.antt =====
-- The parsers of single fields on printed text.
use ngfwtraffic_gen.Common.{
  ℕ, ◌<◌, ◌^◌, ◌≡◌, refl, ap, ◌∙◌, Bool, true, false, ◌&&◌, none, some, List, [], ◌∷◌, ◌++◌, map,
  Bytes, codes, is_empty, arith,
}
use ngfwtraffic_gen.Config.Parse.{parse_string, parse_uint, parse_bool, drop_last}
use ngfwtraffic_gen.Config.Print.Array.{object_text}
use ngfwtraffic_gen.Config.Print.Decimal.{starts_digit, starts_digit-digits, strtoull-digits}
use ngfwtraffic_gen.Config.Print.Entries.{
  scalar_skips, skips, find-mark, find-print_scalar, find-print_entries,
  find_raw_value-print_entries,
}
use ngfwtraffic_gen.Config.Print.Find.{all, is_word, breaks}
use ngfwtraffic_gen.Config.Print.Objects.{fields_all, items_all}
use ngfwtraffic_gen.Config.Print.Raw.{ends, plain_byte, raw_at-number, raw_at-text, raw_at-flag}
use ngfwtraffic_gen.Config.Print.{
  Scalar, number, text, flag, Fields, Value, scalar, items, object, digits, flag_text, pad, sep,
  print_scalar, print_entries, print_items, print_value,
}
use ngfwtraffic_gen.Config.Scan.{
  starts_with, find_text, is_space, skip_space, raw_at, quoted, find_raw_value,
}

abbrev pub items_skip : Bytes → List Fields → Bool
items_skip k [] = true
items_skip k (fs ∷ more) = skips (scalar_skips k) k fs && items_skip k more

abbrev pub value_skips : Bytes → Value → Bool
value_skips k (scalar s) = scalar_skips k s
value_skips k (items os) = items_skip k os
value_skips k (object fs) = skips (scalar_skips k) k fs

pub items_skip-map :
    {A : Type 0} (k : Bytes) (f : A → Fields) (xs : List A)
    → ((x : A) → skips (scalar_skips k) k (f x) ≡ true)
    → items_skip k (map f xs) ≡ true
items_skip-map k f [] h = refl
items_skip-map k f (x ∷ xs) h = ground (arith, h x, items_skip-map k f xs h)

pub items_all-map :
    {A : Type 0} (p : ℕ → Bool) (f : A → Fields) (xs : List A)
    → ((x : A) → fields_all p (f x) ≡ true)
    → items_all p (map f xs) ≡ true
items_all-map p f [] h = refl
items_all-map p f (x ∷ xs) h = ground (arith, h x, items_all-map p f xs h)

drop_last-append : (v : Bytes) (c : ℕ) → drop_last (v ++ (c ∷ [])) ≡ v
unfolding drop_last
drop_last-append [] c = refl
drop_last-append (x ∷ []) c = refl
drop_last-append (x ∷ y ∷ v) c = ap (◌∷◌ x) (drop_last-append (y ∷ v) c)

pub parse_string-raw :
    (json k v : Bytes)
    → find_raw_value json k ≡ b'"' ∷ (v ++ (b'"' ∷ []))
    → parse_string json k ≡ some v
unfolding parse_string
parse_string-raw json k [] e = rw e refl
parse_string-raw json k (c ∷ v) e = rw e (ap some (drop_last-append (c ∷ v) b'"'))

find-true-none : (s : Bytes) → all is_space s ≡ true → find_text (codes "true") s ≡ none
unfolding find_text starts_with
find-true-none [] h = refl
find-true-none (c ∷ s) h = ground (arith, find-true-none s)

parse_bool-raw :
    (gap json k : Bytes) (b : Bool)
    → all is_space gap ≡ true
    → find_raw_value json k ≡ flag_text b ++ gap
    → parse_bool json k ≡ some b
unfolding parse_bool find_text starts_with
parse_bool-raw gap json k true h e = rw e refl
parse_bool-raw gap json k false h e = rw e (rw (find-true-none gap h) refl)

not_empty-starts_digit : (s : Bytes) → starts_digit s ≡ true → is_empty s ≡ false
not_empty-starts_digit [] h = cc
not_empty-starts_digit (c ∷ s) h = refl

module _ (gap : Bytes → Bytes) (spaces : (r : Bytes) → all is_space (gap r) ≡ true) where
  pub parse_uint-raw :
      (cast : ℕ → ℕ) (white json k : Bytes) (n : ℕ)
      → all is_space white ≡ true
      → n < 2 ^ 64
      → find_raw_value json k ≡ digits 20 n white
      → parse_uint cast json k ≡ some (cast n)
  unfolding parse_uint
  parse_uint-raw cast white json k n white_spaces l e = rw e (
      rw (not_empty-starts_digit (digits 20 n white) (starts_digit-digits 19 n white))
        (rw (strtoull-digits n white l white_spaces) refl))

  find-any_sep :
      {A : Type 0} (k : Bytes) (es : List A) (rest : Bytes)
      → find_text (quoted k) (sep gap es rest) ≡ find_text (quoted k) rest
  find-any_sep k [] rest = refl
  find-any_sep k (e ∷ es) rest = find-mark gap spaces k rest b',' refl

  find-print_fields :
      (k : Bytes) (fs : Fields) (rest : Bytes)
      → is_word k ≡ true
      → skips (scalar_skips k) k fs ≡ true
      → breaks rest ≡ true
      → find_text (quoted k) (print_entries gap (print_scalar gap) fs rest)
        ≡ find_text (quoted k) rest
  find-print_fields k fs rest w h b =
      find-print_entries gap spaces (print_scalar gap) (scalar_skips k) k w
        (λ s r g c. find-print_scalar gap spaces k s r w g c) fs rest h b

  find-print_object :
      (k : Bytes) (fs : Fields) (rest : Bytes)
      → is_word k ≡ true
      → skips (scalar_skips k) k fs ≡ true
      → find_text
          (quoted k)
          (b'{' ∷ (pad gap (print_entries gap (print_scalar gap) fs (b'}' ∷ (pad gap rest)))))
        ≡ find_text (quoted k) rest
  find-print_object k fs rest w h =
      find-mark gap spaces k _ b'{' refl
      ∙ find-print_fields k fs (b'}' ∷ (pad gap rest)) w h refl
      ∙ find-mark gap spaces k rest b'}' refl

  find-print_items :
      (k : Bytes) (os : List Fields) (rest : Bytes)
      → is_word k ≡ true
      → items_skip k os ≡ true
      → find_text (quoted k) (print_items gap os rest) ≡ find_text (quoted k) rest
  find-print_items k [] rest w h = refl
  find-print_items k (fs ∷ more) rest w h =
      find-print_object k fs (sep gap more (print_items gap more rest)) w (ground arith)
      ∙ find-any_sep k more (print_items gap more rest)
      ∙ find-print_items k more rest w (ground arith)

  pub find-print_value :
      (k : Bytes) (v : Value) (rest : Bytes)
      → is_word k ≡ true
      → value_skips k v ≡ true
      → breaks rest ≡ true
      → find_text (quoted k) (print_value gap v rest) ≡ find_text (quoted k) rest
  find-print_value k (scalar s) rest w h b = find-print_scalar gap spaces k s rest w h b
  find-print_value k (items os) rest w h b =
      find-mark gap spaces k _ b'[' refl
      ∙ find-print_items k os (b']' ∷ (pad gap rest)) w h
      ∙ find-mark gap spaces k rest b']' refl
  find-print_value k (object fs) rest w h b = find-print_object k fs rest w h

  pub ends-sep :
      {V : Type 0} (print : V → Bytes → Bytes) (es : List (Bytes × V)) (rest : Bytes)
      → ends rest ≡ true
      → ends (sep gap es (print_entries gap print es rest)) ≡ true
  ends-sep print [] rest h = h
  ends-sep print (e ∷ es) rest h = refl

  -- A field of an object.
  module _ (k : Bytes) (word : is_word k ≡ true) (pre post : Fields)
      (passed : skips (scalar_skips k) k pre ≡ true) where
    abbrev rest_of_fields : Bytes
    rest_of_fields = sep gap post (print_entries gap (print_scalar gap) post (b'}' ∷ []))

    rest_ends : ends rest_of_fields ≡ true
    rest_ends = ends-sep (print_scalar gap) post (b'}' ∷ []) refl

    abbrev in_object : Scalar → Bytes
    in_object s = object_text gap (pre ++ ((k, s) ∷ post))

    raw_field :
        (s : Scalar)
        → find_raw_value (in_object s) k ≡ raw_at (skip_space (print_scalar gap s rest_of_fields))
    raw_field s =
        find_raw_value-print_entries gap spaces (print_scalar gap) (scalar_skips k) k word
          (λ t r g c. find-print_scalar gap spaces k t r word g c) b'{' pre post s (b'}' ∷ []) refl
          passed refl

    pub parse_uint_field :
        (cast : ℕ → ℕ) (n : ℕ)
        → n < 2 ^ 64
        → parse_uint cast (in_object (number n)) k ≡ some (cast n)
    parse_uint_field cast n l =
        parse_uint-raw cast (gap rest_of_fields) (in_object (number n)) k n (spaces rest_of_fields)
          l (raw_field (number n) ∙ raw_at-number gap spaces n rest_of_fields rest_ends)

    pub parse_string_field :
        (v : Bytes) → all plain_byte v ≡ true → parse_string (in_object (text v)) k ≡ some v
    parse_string_field v h =
        parse_string-raw (in_object (text v)) k v
          (raw_field (text v) ∙ raw_at-text v (pad gap rest_of_fields) h)

    pub parse_bool_field : (b : Bool) → parse_bool (in_object (flag b)) k ≡ some b
    parse_bool_field b =
        parse_bool-raw (gap rest_of_fields) (in_object (flag b)) k b (spaces rest_of_fields)
          (raw_field (flag b) ∙ raw_at-flag gap spaces b rest_of_fields rest_ends)
