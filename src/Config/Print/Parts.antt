-- ===== src/Config/Print/Parts.antt =====
-- The objects of a printed configuration are parsed back, field by field.
use ngfwtraffic_gen.Common.{
  ℕ, zero, suc, ◌<◌, ◌^◌, ◌≡◌, refl, ap, ◌∙◌, true, some, List, [], ◌∷◌, ◌++◌, map, All, Bytes,
  codes, u16, u32, arith,
}
use ngfwtraffic_gen.Config.{PortConfig, CoreMapping}
use ngfwtraffic_gen.Config.Parse.{parse_uint, parse_port, parse_mapping}
use ngfwtraffic_gen.Config.Print.Array.{object_text, object_texts}
use ngfwtraffic_gen.Config.Print.Entries.{scalar_skips, skips}
use ngfwtraffic_gen.Config.Print.Find.{all, is_word}
use ngfwtraffic_gen.Config.Print.Lookup.{parse_uint_field, parse_bool_field}
use ngfwtraffic_gen.Config.Print.{number, Fields, port_fields, mapping_fields}
use ngfwtraffic_gen.Config.Scan.{is_space}

-- The fields are within their types.
pub record PortFits (p : PortConfig) : Type 0 where
  pub port_id : p.port_id < 2 ^ 16
  pub nb_rx_queues : p.nb_rx_queues < 2 ^ 16
  pub nb_tx_queues : p.nb_tx_queues < 2 ^ 16
  pub nb_rx_desc : p.nb_rx_desc < 2 ^ 16
  pub nb_tx_desc : p.nb_tx_desc < 2 ^ 16

pub record MappingFits (m : CoreMapping) : Type 0 where
  pub core_id : m.core_id < 2 ^ 32
  pub port_id : m.port_id < 2 ^ 16
  pub queue_id : m.queue_id < 2 ^ 16

abbrev pub before {ℓ} : {A : Type ℓ} → ℕ → List A → List A
before zero xs = []
before (suc n) [] = []
before (suc n) (x ∷ xs) = x ∷ before n xs

abbrev pub after {ℓ} : {A : Type ℓ} → ℕ → List A → List A
after zero xs = xs
after (suc n) [] = []
after (suc n) (x ∷ xs) = after n xs

pub u16_small : (n : ℕ) → n < 2 ^ 16 → u16 n ≡ n
u16_small n h = omega arith

pub u32_small : (n : ℕ) → n < 2 ^ 32 → u32 n ≡ n
u32_small n h = omega arith

module _ (gap : Bytes → Bytes) (spaces : (r : Bytes) → all is_space (gap r) ≡ true) where
  -- The number that stands in an object's field, in the field's type.
  pub field16 :
      (k : Bytes) (pre post : Fields) (n : ℕ)
      → is_word k ≡ true
      → skips (scalar_skips k) k pre ≡ true
      → n < 2 ^ 16
      → parse_uint u16 (object_text gap (pre ++ ((k, number n) ∷ post))) k ≡ some n
  field16 k pre post n w h l =
      parse_uint_field gap spaces k w pre post h u16 n (omega arith) ∙ ap some (u16_small n l)

  field32 :
      (k : Bytes) (pre post : Fields) (n : ℕ)
      → is_word k ≡ true
      → skips (scalar_skips k) k pre ≡ true
      → n < 2 ^ 32
      → parse_uint u32 (object_text gap (pre ++ ((k, number n) ∷ post))) k ≡ some n
  field32 k pre post n w h l =
      parse_uint_field gap spaces k w pre post h u32 n (omega arith) ∙ ap some (u32_small n l)

  pub parse_port-text :
      (p : PortConfig) → PortFits p → parse_port (object_text gap (port_fields p)) ≡ p
  unfolding parse_port
  parse_port-text p f =
      let fs : Fields = port_fields p in
      rw (field16 (codes "port_id") [] (after 1 fs) p.port_id refl refl f.port_id) (
        rw
          (field16 (codes "nb_rx_queues") (before 1 fs) (after 2 fs) p.nb_rx_queues refl refl
            f.nb_rx_queues)
          (rw
            (field16 (codes "nb_tx_queues") (before 2 fs) (after 3 fs) p.nb_tx_queues refl refl
              f.nb_tx_queues)
            (rw
              (field16 (codes "nb_rx_desc") (before 3 fs) (after 4 fs) p.nb_rx_desc refl refl
                f.nb_rx_desc)
              (rw
                (field16 (codes "nb_tx_desc") (before 4 fs) [] p.nb_tx_desc refl refl f.nb_tx_desc)
                refl))))

  pub parse_mapping-text :
      (m : CoreMapping) → MappingFits m → parse_mapping (object_text gap (mapping_fields m)) ≡ m
  unfolding parse_mapping
  parse_mapping-text m f =
      let fs : Fields = mapping_fields m in
      rw (field32 (codes "core_id") [] (after 1 fs) m.core_id refl refl f.core_id) (
        rw (field16 (codes "port_id") (before 1 fs) (after 2 fs) m.port_id refl refl f.port_id) (
          rw (field16 (codes "queue_id") (before 2 fs) (after 3 fs) m.queue_id refl refl f.queue_id)
            (rw
              (parse_bool_field gap spaces (codes "enable_rx") refl (before 3 fs) [] refl
                m.enable_rx)
              refl)))

pub map_back :
    {A : Type 0} (P : A → Type 0) (parse : Bytes → A) (fields : A → Fields)
    (back : (gap : Bytes → Bytes)
      → ((r : Bytes) → all is_space (gap r) ≡ true)
      → (a : A) → P a
      → parse (object_text gap (fields a)) ≡ a)
    (gap : Bytes → Bytes) (spaces : (r : Bytes) → all is_space (gap r) ≡ true) (xs : List A)
    (rest : Bytes)
    → All P xs
    → map parse (object_texts gap (map fields xs) rest) ≡ xs
map_back P parse fields back gap spaces [] rest h = refl
map_back P parse fields back gap spaces (x ∷ xs) rest h =
    rw (back _ (λ r. spaces _) x h.0)
      (ap (◌∷◌ x) (map_back P parse fields back gap spaces xs rest h.1))
