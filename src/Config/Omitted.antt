-- ===== src/Config/Omitted.antt =====
-- Fields that a configuration file leaves out: README.md says that the parser applies defaults for them.
use mathlib.Core.Path.{subst}
use ngfwtraffic_gen.Common.{
  ℕ, ◌≡◌, ◌⊎◌, refl, sym, ap, inl, inr, false, Option, none, some, List, [], ◌∷◌, map, In,
  All_of_In, Bytes, codes, is_empty, u16, arith, Bool-cases,
}
use ngfwtraffic_gen.Config.{PortConfig, AppConfig, get_default_config, validate_config}
use ngfwtraffic_gen.Config.Parse.{
  parse_uint, parse_port, parse_mapping, parse_array, parse_from_string, ◌>>=◌, or_keep,
}
use ngfwtraffic_gen.Config.Scan.{
  find_text, quoted, find_raw_value, extract_array, split_objects_in_array,
}
use ngfwtraffic_gen.Config.Total.{parse_array-Yields}
use ngfwtraffic_gen.Config.Validate.{IsUsable, validate_config_iff}

-- The key stands nowhere in the text.
abbrev pub Omits : Bytes → Bytes → Type 0
Omits key s = find_text (quoted key) s ≡ none

parse_uint-Omits :
    (cast : ℕ → ℕ) (json key : Bytes) → Omits key json → parse_uint cast json key ≡ none
unfolding parse_uint find_raw_value
parse_uint-Omits cast json key e = rw e refl

-- The objects of the `ports` array, where there is one.
abbrev pub PortObjects : Bytes → List Bytes → Type 0
PortObjects json objects =
    (is_empty (extract_array json (codes "ports")) ≡ false)
    × (split_objects_in_array (extract_array json (codes "ports")) ≡ some objects)

bind_ensures :
    {A B : Type 0} (P : B → Type 0) (o : Option A) (f : A → Option B) (a : A)
    → o ≡ some a
    → (b : B) × (f a ≡ some b) × P b
    → (b : B) × ((o >>= f) ≡ some b) × P b
bind_ensures P o f a e (b, g, p) = (b, rw e g, p)

parse_from_string-ports :
    (json : Bytes) (ports : List PortConfig)
    → parse_array parse_port (extract_array json (codes "ports")) get_default_config.ports
      ≡ some ports
    → (c : AppConfig) × (parse_from_string json ≡ some c) × (c.ports ≡ ports)
unfolding parse_from_string
parse_from_string-ports json ports e =
    let (mappings, f) =
      parse_array-Yields parse_mapping (extract_array json (codes "core_mappings"))
        get_default_config.core_mappings in
    bind_ensures (λ c. c.ports ≡ ports) _ _ ports e
      (bind_ensures (λ c. c.ports ≡ ports) _ _ mappings f (_, refl, refl))

parsed_ports :
    (json : Bytes) (objects : List Bytes) (c : AppConfig)
    → PortObjects json objects
    → parse_from_string json ≡ some c
    → c.ports ≡ map parse_port objects
unfolding parse_array
parsed_ports json objects c (filled, split) e =
    let (c', f, p) =
      parse_from_string-ports json (map parse_port objects) (rw filled (rw split refl)) in
    ground (arith, f, p)

In-map : {A B : Type 0} (f : A → B) (a : A) (xs : List A) → In a xs → In (f a) (map f xs)
In-map f a [] h = h
In-map f a (x ∷ xs) (inl e) = inl (ap f e)
In-map f a (x ∷ xs) (inr h) = inr (In-map f a xs h)

-- A port that leaves out one of the two numbers of descriptors gets 0 for it.
omitted-not-IsUsable :
    (object : Bytes)
    → Omits (codes "nb_rx_desc") object ⊎ Omits (codes "nb_tx_desc") object
    → ¬ IsUsable (parse_port object)
unfolding parse_port
omitted-not-IsUsable object (inl e) u =
    u.rx_desc (ap (or_keep 0) (parse_uint-Omits u16 object (codes "nb_rx_desc") e))
omitted-not-IsUsable object (inr e) u =
    u.tx_desc (ap (or_keep 0) (parse_uint-Omits u16 object (codes "nb_tx_desc") e))

-- A configuration file with a `ports` array in which a port leaves out one of the numbers of
-- descriptors is parsed, and the result is not valid.
pub omitted_descriptors_invalid :
    (json : Bytes) (objects : List Bytes) (object : Bytes) (c : AppConfig)
    → PortObjects json objects
    → In object objects
    → Omits (codes "nb_rx_desc") object ⊎ Omits (codes "nb_tx_desc") object
    → parse_from_string json ≡ some c
    → validate_config c ≡ false
omitted_descriptors_invalid json objects object c has here omits e =
    elim (Bool-cases (validate_config c)) [
      | inr invalid ↦ invalid
      | inl valid ↦
          let usable = (validate_config_iff c).0 valid in
          let port : In (parse_port object) c.ports =
            subst (In (parse_port object)) (sym (parsed_ports json objects c has e))
              (In-map parse_port object objects here) in
          absurd (omitted-not-IsUsable object omits (All_of_In IsUsable c.ports usable.3 port))
    ]
