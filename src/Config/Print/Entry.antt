-- ===== src/Config/Print/Entry.antt =====
-- The entries of a printed configuration file under the parsers of single fields.
use ngfwtraffic_gen.Common.{
  ℕ, ◌<◌, ◌^◌, ◌≡◌, refl, ◌∙◌, true, false, some, List, [], ◌∷◌, ◌++◌, map, Bytes, codes, arith,
}
use ngfwtraffic_gen.Config.{GrpcConfig}
use ngfwtraffic_gen.Config.Parse.{parse_string, parse_uint, parse_array, parse_grpc}
use ngfwtraffic_gen.Config.Print.Array.{
  object_text, object_texts, array_text, split_objects_in_array-array_text, raw_at-items,
  raw_at-fields, braces,
}
use ngfwtraffic_gen.Config.Print.Entries.{scalar_skips, skips, find_raw_value-print_entries}
use ngfwtraffic_gen.Config.Print.Find.{all, all_mono, not_quote, is_word, equal}
use ngfwtraffic_gen.Config.Print.Lookup.{
  value_skips, find-print_value, parse_uint-raw, parse_string-raw, parse_string_field, ends-sep,
}
use ngfwtraffic_gen.Config.Print.Objects.{fields_all, items_all}
use ngfwtraffic_gen.Config.Print.Parts.{before, after, field16}
use ngfwtraffic_gen.Config.Print.Raw.{plain_byte, outside, raw_at-number, raw_at-text}
use ngfwtraffic_gen.Config.Print.{
  number, text, Fields, Value, scalar, items, object, pad, shift, sep, print_entries, print_value,
  grpc_fields,
}
use ngfwtraffic_gen.Config.Scan.{
  is_space, skip_space, raw_at, find_raw_value, extract_array, starts_with,
}

plain-not_quote : (v : Bytes) → all plain_byte v ≡ true → all not_quote v ≡ true
plain-not_quote v h = all_mono plain_byte not_quote (λ c e. ground arith) v h

pub plain_skips :
    (k v : Bytes) → all plain_byte v ≡ true → equal k v ≡ false → scalar_skips k (text v) ≡ true
plain_skips k v h ne = ground (arith, plain-not_quote v h)

module _ (gap : Bytes → Bytes) (spaces : (r : Bytes) → all is_space (gap r) ≡ true) where
  pub parse_array-array_text :
      {A : Type 0} (parse : Bytes → A) (os : List Fields) (b : List A)
      → items_all braces os ≡ true
      → parse_array parse (array_text gap os) b ≡ some (map parse (object_texts gap os (b']' ∷ [])))
  unfolding parse_array
  parse_array-array_text parse os b h = rw (split_objects_in_array-array_text gap spaces os h) refl

  -- An entry of the file, and what stands behind its value.
  module _ (k : Bytes) (word : is_word k ≡ true) (pre post : List (Bytes × Value))
      (passed : skips (value_skips k) k pre ≡ true) where
    abbrev tail : Bytes
    tail = sep gap post (print_entries gap (print_value gap) post (b'}' ∷ gap []))

    abbrev file : Value → Bytes
    file v =
        b'{'
        ∷ (pad gap (print_entries gap (print_value gap) (pre ++ ((k, v) ∷ post)) (b'}' ∷ gap [])))

    raw_entry :
        (v : Value) → find_raw_value (file v) k ≡ raw_at (skip_space (print_value gap v tail))
    raw_entry v =
        find_raw_value-print_entries gap spaces (print_value gap) (value_skips k) k word
          (λ u r g c. find-print_value gap spaces k u r word g c) b'{' pre post v (b'}' ∷ gap [])
          refl passed refl

    pub uint_entry :
        (cast : ℕ → ℕ) (n : ℕ)
        → n < 2 ^ 64
        → parse_uint cast (file (scalar (number n))) k ≡ some (cast n)
    uint_entry cast n l =
        parse_uint-raw gap spaces cast (gap tail) (file (scalar (number n))) k n (spaces tail) l (
          raw_entry (scalar (number n))
          ∙ raw_at-number gap spaces n tail
              (ends-sep gap spaces (print_value gap) post (b'}' ∷ gap []) refl))

    pub string_entry :
        (v : Bytes) → all plain_byte v ≡ true → parse_string (file (scalar (text v))) k ≡ some v
    string_entry v h =
        parse_string-raw (file (scalar (text v))) k v
          (raw_entry (scalar (text v)) ∙ raw_at-text v (pad gap tail) h)

    pub array_entry :
        (os : List Fields)
        → items_all (outside b'[' b']') os ≡ true
        → (g : Bytes → Bytes) × ((r : Bytes) → all is_space (g r) ≡ true)
          × (extract_array (file (items os)) k ≡ array_text g os)
    unfolding extract_array
    array_entry os h = (
      shift gap (pad gap tail),
      (λ r. spaces _),
      rw (raw_entry (items os) ∙ raw_at-items gap spaces os tail h) refl,
    )

    pub object_entry :
        (fs : Fields)
        → fields_all braces fs ≡ true
        → (g : Bytes → Bytes) × ((r : Bytes) → all is_space (g r) ≡ true)
          × (find_raw_value (file (object fs)) k ≡ object_text g fs)
    object_entry fs h = (
      shift gap (pad gap tail),
      (λ r. spaces _),
      raw_entry (object fs) ∙ raw_at-fields gap spaces fs tail h,
    )

  pub parse_grpc-text :
      (g b : GrpcConfig)
      → all plain_byte g.listen_address ≡ true
      → equal (codes "port") g.listen_address ≡ false
      → g.port < 2 ^ 16
      → parse_grpc (object_text gap (grpc_fields g)) b ≡ g
  unfolding parse_grpc starts_with
  parse_grpc-text g b plain ne l =
      let fs : Fields = grpc_fields g in
      let passed = plain_skips (codes "port") g.listen_address plain ne in
      rw
        (parse_string_field gap spaces (codes "listen_address") refl [] (after 1 fs) refl
          g.listen_address plain)
        (rw
          (field16 gap spaces (codes "port") (before 1 fs) [] g.port refl (ground (arith, passed))
            l)
          refl)
