-- ===== src/Config/Print/Array.antt =====
-- `split_objects_in_array` takes a printed array apart, and ends on every text.
use mathlib.Core.List.{append_assoc}
use ngfwtraffic_gen.Common.{
  ℕ, zero, suc, ◌<◌, ◌≡◌, refl, sym, ap, ◌∙◌, Bool, true, not, none, some, List, [], ◌∷◌, ◌++◌,
  Bytes, length, length-append, ◌==◌, arith,
}
use ngfwtraffic_gen.Config.Print.Entries.{gap-all}
use ngfwtraffic_gen.Config.Print.Find.{all, all-append, find_char-append}
use ngfwtraffic_gen.Config.Print.Objects.{
  find_char-skip, fields_all, items_all, body, pad-append, print_object-body, print_object-append,
  print_items-append, length-print_items, all-body, all-print_items,
}
use ngfwtraffic_gen.Config.Print.Raw.{outside, up_to_close-append, raw_at-object, raw_at-array}
use ngfwtraffic_gen.Config.Print.{
  Fields, items, object, pad, shift, sep, print_scalar, print_object, print_items, print_value,
}
use ngfwtraffic_gen.Config.Scan.{
  find_char, is_space, skip_space, on_first, raw_at, objects_from, split_objects_in_array,
}

abbrev no_brace : ℕ → Bool
no_brace c = not (c == b'{')

abbrev pub braces : ℕ → Bool
braces = outside b'{' b'}'

-- The text of an object, as the scanner cuts it out.
abbrev pub object_text : (Bytes → Bytes) → Fields → Bytes
object_text gap fs = print_object gap (print_scalar gap) fs []

abbrev pub array_text : (Bytes → Bytes) → List Fields → Bytes
array_text gap os = b'[' ∷ pad gap (print_items gap os (b']' ∷ []))

-- The texts of the objects of an array, each with the white space of its place.
abbrev pub object_texts : (Bytes → Bytes) → List Fields → Bytes → List Bytes
object_texts gap [] rest = []
object_texts gap (fs ∷ more) rest =
    object_text (shift gap (pad gap (sep gap more (print_items gap more rest)))) fs
    ∷ object_texts gap more rest

module _ (gap : Bytes → Bytes) (spaces : (r : Bytes) → all is_space (gap r) ≡ true) where
  body-braces : (fs : Fields) → fields_all braces fs ≡ true → all braces (body gap fs) ≡ true
  body-braces fs h =
      all-body gap spaces braces (λ c e. ground arith) (λ c e. ground arith) (λ c e. ground arith)
        refl fs h

  gap_no_brace : (r : Bytes) → all no_brace (gap r) ≡ true
  gap_no_brace = gap-all gap spaces no_brace (λ c e. ground arith)

  between : {A : Type 0} → List A → Bytes → Bytes
  between [] rest = gap rest
  between (e ∷ es) rest = gap (b',' ∷ pad gap rest) ++ (b',' ∷ gap rest)

  between-append :
      {A : Type 0} (es : List A) (s : Bytes) → pad gap (sep gap es s) ≡ between es s ++ s
  unfolding between
  between-append [] s = refl
  between-append (e ∷ es) s = sym (append_assoc (gap (b',' ∷ pad gap s)) (b',' ∷ gap s) s)

  between-no_brace : {A : Type 0} (es : List A) (s : Bytes) → all no_brace (between es s) ≡ true
  unfolding between
  between-no_brace [] s = gap_no_brace s
  between-no_brace (e ∷ es) s =
      all-append no_brace (gap (b',' ∷ pad gap s)) (b',' ∷ gap s) (gap_no_brace _) (gap_no_brace s)

  -- The text of an object up to its brace, with the white space that `rest` behind it gives.
  abbrev cut : Fields → Bytes → Bytes
  cut fs rest = body (shift (shift gap rest) (b'}' ∷ [])) fs

  cut-object_text :
      (fs : Fields) (rest : Bytes)
      → object_text (shift gap rest) fs ≡ b'{' ∷ (cut fs rest ++ (b'}' ∷ []))
  cut-object_text fs rest = print_object-body (shift gap rest) fs

  cut-print_object :
      (fs : Fields) (rest : Bytes)
      → print_object gap (print_scalar gap) fs rest ≡ b'{' ∷ (cut fs rest ++ (b'}' ∷ rest))
  cut-print_object fs rest =
      print_object-append gap fs [] rest
      ∙ ap (λ s. s ++ rest) (cut-object_text fs rest)
      ∙ ap (◌∷◌ b'{') (append_assoc (cut fs rest) (b'}' ∷ []) rest)

-- Each object's text passes the braces' test.
cut-braces :
    (gap : Bytes → Bytes) (spaces : (r : Bytes) → all is_space (gap r) ≡ true) (fs : Fields)
    (rest : Bytes)
    → fields_all braces fs ≡ true
    → all braces (cut gap spaces fs rest) ≡ true
cut-braces gap spaces fs rest h =
    body-braces (shift (shift gap rest) (b'}' ∷ [])) (λ r. spaces _) fs h

module _ (gap : Bytes → Bytes) (spaces : (r : Bytes) → all is_space (gap r) ≡ true) where
  objects_from-print_items :
      (os : List Fields) (fuel : ℕ) (v rest : Bytes)
      → all no_brace v ≡ true
      → find_char b'{' rest ≡ none
      → items_all braces os ≡ true
      → length os < fuel
      → objects_from fuel (v ++ print_items gap os rest) ≡ some (object_texts gap os rest)
  unfolding objects_from
  objects_from-print_items os zero v rest n e h l = absurd (omega arith)
  objects_from-print_items [] (suc fuel) v rest n e h l =
      rw (find_char-skip b'{' v rest n) (rw e refl)
  objects_from-print_items (fs ∷ more) (suc fuel) v rest n e h l =
      let behind : Bytes = print_items gap more rest in
      let next : Bytes = pad gap (sep gap more behind) in
      let inside : Bytes = cut gap spaces fs next in
      let tail =
        ap (objects_from fuel) (between-append gap spaces more behind)
        ∙ objects_from-print_items more fuel (between gap spaces more behind) rest
            (between-no_brace gap spaces more behind) e (ground arith) (omega arith) in
      rw (cut-print_object gap spaces fs next) (
        rw (find_char-append b'{' v (inside ++ (b'}' ∷ next)) n) (
          rw
            (up_to_close-append b'{' b'}' inside next refl
              (cut-braces gap spaces fs next (ground arith)))
            (unfold on_first in
              rw tail (
                ap (λ s. some (s ∷ object_texts gap more rest))
                  (sym (cut-object_text gap spaces fs next))))))

  -- A printed array is split into its objects.
  pub split_objects_in_array-array_text :
      (os : List Fields)
      → items_all braces os ≡ true
      → split_objects_in_array (array_text gap os) ≡ some (object_texts gap os (b']' ∷ []))
  unfolding split_objects_in_array
  split_objects_in_array-array_text os h =
      let inner : Bytes = print_items gap os (b']' ∷ []) in
      objects_from-print_items os (suc (length (array_text gap os))) (b'[' ∷ gap inner) (b']' ∷ [])
        (gap_no_brace gap spaces inner) refl h
        (omega (arith, length-append (gap inner) inner, length-print_items gap os (b']' ∷ [])))

  array_text-append :
      (os : List Fields) (rest : Bytes)
      → b'[' ∷ pad gap (print_items gap os (b']' ∷ rest)) ≡ array_text (shift gap rest) os ++ rest
  array_text-append os rest =
      ap (λ s. b'[' ∷ pad gap s) (print_items-append gap os (b']' ∷ []) rest)
      ∙ ap (◌∷◌ b'[') (pad-append gap (print_items (shift gap rest) os (b']' ∷ [])) rest)

  pub raw_at-fields :
      (fs : Fields) (rest : Bytes)
      → fields_all braces fs ≡ true
      → raw_at (skip_space (print_value gap (object fs) rest))
        ≡ object_text (shift gap (pad gap rest)) fs
  raw_at-fields fs rest h =
      ap (λ s. raw_at (skip_space s)) (cut-print_object gap spaces fs (pad gap rest))
      ∙ raw_at-object (cut gap spaces fs (pad gap rest)) (pad gap rest)
          (cut-braces gap spaces fs (pad gap rest) h)
      ∙ sym (cut-object_text gap spaces fs (pad gap rest))

array_inner :
    (gap : Bytes → Bytes) (os : List Fields)
    → let g = shift gap (b']' ∷ []) in
      array_text gap os ≡ b'[' ∷ (pad g (print_items g os []) ++ (b']' ∷ []))
array_inner gap os =
    ap (λ s. b'[' ∷ pad gap s) (print_items-append gap os [] (b']' ∷ []))
    ∙ ap (◌∷◌ b'[') (pad-append gap (print_items (shift gap (b']' ∷ [])) os []) (b']' ∷ []))

inner-outside :
    (gap : Bytes → Bytes) (spaces : (r : Bytes) → all is_space (gap r) ≡ true) (os : List Fields)
    → items_all (outside b'[' b']') os ≡ true
    → all (outside b'[' b']') (pad gap (print_items gap os [])) ≡ true
inner-outside gap spaces os h =
    all-append (outside b'[' b']') (gap (print_items gap os [])) (print_items gap os [])
      (gap-all gap spaces (outside b'[' b']') (λ c e. ground arith) (print_items gap os []))
      (all-print_items gap spaces (outside b'[' b']') (λ c e. ground arith) (λ c e. ground arith)
        (λ c e. ground arith) refl os [] refl h refl)

pub raw_at-items :
    (gap : Bytes → Bytes) (spaces : (r : Bytes) → all is_space (gap r) ≡ true) (os : List Fields)
    (rest : Bytes)
    → items_all (outside b'[' b']') os ≡ true
    → raw_at (skip_space (print_value gap (items os) rest))
      ≡ array_text (shift gap (pad gap rest)) os
raw_at-items gap spaces os rest h =
    let behind : Bytes = pad gap rest in
    let g = shift (shift gap behind) (b']' ∷ []) in
    let inner : Bytes = pad g (print_items g os []) in
    ap (λ s. raw_at (skip_space s))
      (array_text-append gap spaces os behind
        ∙ ap (λ s. s ++ behind) (array_inner (shift gap behind) os)
        ∙ ap (◌∷◌ b'[') (append_assoc inner (b']' ∷ []) behind))
    ∙ raw_at-array inner behind (inner-outside g (λ r. spaces _) os h)
    ∙ sym (array_inner (shift gap behind) os)
