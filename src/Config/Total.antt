-- ===== src/Config/Total.antt =====
-- The loops of the scanner end: the fuel of `split_objects_in_array` is enough on every text.
use ngfwtraffic_gen.Common.{
  ℕ, zero, suc, ◌+◌, ◌-◌, ◌<◌, ◌≤◌, ◌≡◌, refl, Option, none, some, List, [], ◌∷◌, map, Bytes, codes,
  is_empty, length, ◌==◌, if◌then◌else◌, arith, Option-cases, Bool-cases, inl, inr,
}
use ngfwtraffic_gen.Config.{AppConfig, get_default_config}
use ngfwtraffic_gen.Config.Parse.{parse_array, parse_port, parse_mapping, parse_from_string, ◌>>=◌}
use ngfwtraffic_gen.Config.Scan.{
  find_char, on_first, up_to_close, objects_from, object_closed, split_objects_in_array,
  extract_array,
}

find_char-length : (c : ℕ) (s t : Bytes) → find_char c s ≡ some t → length t ≤ length s
unfolding find_char
find_char-length c [] t e = cc
find_char-length c (x ∷ s) t e = ground (arith, find_char-length c s t)

-- What follows a closed bracket is shorter than `n`.
abbrev Shorter : ℕ → Option (Bytes × Bytes) → Type 0
Shorter n none = Unit
Shorter n (some (o, rest)) = length rest < n

on_first-Shorter :
    (c n : ℕ) (r : Option (Bytes × Bytes)) → Shorter n r → Shorter (suc n) (on_first c r)
unfolding on_first
on_first-Shorter c n none h = tt
on_first-Shorter c n (some (o, rest)) h = omega arith

Shorter-mono : (m n : ℕ) (r : Option (Bytes × Bytes)) → m ≤ n → Shorter m r → Shorter n r
Shorter-mono m n none l h = tt
Shorter-mono m n (some (o, rest)) l h = omega arith

up_to_close-Shorter :
    (left right depth : ℕ) (s : Bytes) → Shorter (length s) (up_to_close left right depth s)
unfolding up_to_close
up_to_close-Shorter left right depth [] = tt
up_to_close-Shorter left right depth (c ∷ s) =
    let depth' : ℕ = if c == left then depth + 1 else if c == right then depth - 1 else depth in
    elim (Bool-cases (depth' == 0)) [
      | inl closed ↦ rw closed (omega arith)
      | inr deeper ↦ rw deeper (
          on_first-Shorter c (length s) (up_to_close left right depth' s)
            (up_to_close-Shorter left right depth' s))
    ]

abbrev Yields {ℓ} : {A : Type ℓ} → Option A → Type ℓ
Yields {A = A} o = (a : A) × (o ≡ some a)

closed-Yields :
    (next : Bytes → Option (List Bytes)) (n : ℕ) (go : (s : Bytes) → length s < n → Yields (next s))
    (r : Option (Bytes × Bytes))
    → Shorter n r
    → Yields (object_closed next r)
closed-Yields next n go none h = ([], refl)
closed-Yields next n go (some (o, rest)) h =
    let (os, e) = go rest h in (o ∷ os, rw (e, object_closed) refl)

objects_from-Yields : (fuel : ℕ) (s : Bytes) → length s < fuel → Yields (objects_from fuel s)
unfolding objects_from
objects_from-Yields zero s h = absurd (omega arith)
objects_from-Yields (suc fuel) s h = elim (Option-cases (find_char b'{' s)) [
  | inl e ↦ ([], rw e refl)
  | inr (([], e)) ↦ ([], rw e refl)
  | inr ((c ∷ t, e)) ↦ rw e (
      closed-Yields (objects_from fuel) fuel (objects_from-Yields fuel)
        (on_first c (up_to_close b'{' b'}' 1 t))
        (Shorter-mono (suc (length t)) fuel (on_first c (up_to_close b'{' b'}' 1 t))
          (omega (arith, find_char-length b'{' s (c ∷ t) e))
          (on_first-Shorter c (length t) _ (up_to_close-Shorter b'{' b'}' 1 t))))
]

split-Yields : (s : Bytes) → Yields (split_objects_in_array s)
unfolding split_objects_in_array
split-Yields s = objects_from-Yields (suc (length s)) s (omega arith)

pub parse_array-Yields :
    {A : Type 0} (parse : Bytes → A) (array : Bytes) (b : List A)
    → Yields (parse_array parse array b)
unfolding parse_array
parse_array-Yields parse array b = elim (Bool-cases (is_empty array)) [
  | inl e ↦ (b, rw e refl)
  | inr e ↦ let (os, f) = split-Yields array in (map parse os, rw e (rw f refl))
]

bind-Yields :
    {A B : Type 0} (o : Option A) (f : A → Option B)
    → Yields o
    → ((a : A) → Yields (f a))
    → Yields (o >>= f)
bind-Yields none f (a, e) g = absurd (cc)
bind-Yields (some a) f h g = g a

-- `parse_from_string` ends on every text: the fuel of its loops is enough.
pub parse_from_string_total : (json : Bytes) → (c : AppConfig) × (parse_from_string json ≡ some c)
unfolding parse_from_string
parse_from_string_total json =
    bind-Yields _ _
      (parse_array-Yields parse_port (extract_array json (codes "ports")) get_default_config.ports)
      λ ports.
        bind-Yields _ _
          (parse_array-Yields parse_mapping (extract_array json (codes "core_mappings"))
            get_default_config.core_mappings)
          λ mappings. (_, refl)
