-- ===== src/Config/Print/Objects.antt =====
-- Printed objects and arrays: what bytes they hold, and how `split_objects_in_array` takes an array apart.
use mathlib.Core.List.{append_assoc}
use ngfwtraffic_gen.Common.{
  ℕ, ◌≤◌, ◌≡◌, refl, sym, ap, ◌∙◌, Bool, true, false, not, ◌&&◌, List, [], ◌∷◌, ◌++◌, Bytes, length,
  length-append, ◌==◌, arith,
}
use ngfwtraffic_gen.Config.Number.{is_digit}
use ngfwtraffic_gen.Config.Print.Decimal.{digits-append, all-digits}
use ngfwtraffic_gen.Config.Print.Entries.{gap-all}
use ngfwtraffic_gen.Config.Print.Find.{all, all_mono, all-append, is_letter, is_word, word-all}
use ngfwtraffic_gen.Config.Print.{
  Scalar, number, text, flag, Fields, flag_text, digits, pad, shift, sep, print_scalar,
  print_entries, print_object, print_items,
}
use ngfwtraffic_gen.Config.Scan.{find_char, is_space}

pub find_char-skip :
    (c : ℕ) (v rest : Bytes)
    → all (λ x. not (x == c)) v ≡ true
    → find_char c (v ++ rest) ≡ find_char c rest
unfolding find_char
find_char-skip c [] rest h = refl
find_char-skip c (x ∷ v) rest h = ground (arith, find_char-skip c v rest)

abbrev pub scalar_all : (ℕ → Bool) → Scalar → Bool
scalar_all p (number n) = true
scalar_all p (text v) = all p v
scalar_all p (flag b) = true

abbrev pub fields_all : (ℕ → Bool) → Fields → Bool
fields_all p [] = true
fields_all p ((key, s) ∷ fs) = is_word key && (scalar_all p s && fields_all p fs)

abbrev pub items_all : (ℕ → Bool) → List Fields → Bool
items_all p [] = true
items_all p (fs ∷ more) = fields_all p fs && items_all p more

abbrev pub print_fields : (Bytes → Bytes) → Fields → Bytes → Bytes
print_fields gap = print_entries gap (print_scalar gap)

-- An object's text between the braces.
abbrev pub body : (Bytes → Bytes) → Fields → Bytes
body gap fs = pad gap (print_fields gap fs [])

pub pad-append :
    (gap : Bytes → Bytes) (t rest : Bytes) → pad gap (t ++ rest) ≡ pad (shift gap rest) t ++ rest
pad-append gap t rest = sym (append_assoc (gap (t ++ rest)) t rest)

module _ (gap : Bytes → Bytes) where
  print_scalar-append :
      (s : Scalar) (t rest : Bytes)
      → print_scalar gap s (t ++ rest) ≡ print_scalar (shift gap rest) s t ++ rest
  print_scalar-append (number n) t rest =
      ap (digits 20 n) (pad-append gap t rest) ∙ digits-append 20 n (pad (shift gap rest) t) rest
  print_scalar-append (text v) t rest = simp append_assoc
  print_scalar-append (flag b) t rest = simp append_assoc

  sep-append :
      {A : Type 0} (es : List A) (t rest : Bytes)
      → sep gap es (t ++ rest) ≡ sep (shift gap rest) es t ++ rest
  sep-append [] t rest = refl
  sep-append (e ∷ es) t rest = simp append_assoc

  print_fields-append :
      (fs : Fields) (t rest : Bytes)
      → print_fields gap fs (t ++ rest) ≡ print_fields (shift gap rest) fs t ++ rest
  print_fields-append [] t rest = refl
  print_fields-append ((key, s) ∷ fs) t rest =
      rw (print_fields-append fs t rest)
        (rw sep-append (rw print_scalar-append (simp append_assoc)))

  pub print_object-append :
      (fs : Fields) (t rest : Bytes)
      → print_object gap (print_scalar gap) fs (t ++ rest)
        ≡ print_object (shift gap rest) (print_scalar (shift gap rest)) fs t ++ rest
  print_object-append fs t rest =
      rw (print_fields-append fs (b'}' ∷ t) rest)
        (ap (◌∷◌ b'{') (pad-append gap (print_fields (shift gap rest) fs (b'}' ∷ t)) rest))

  pub print_object-body :
      (fs : Fields)
      → print_object gap (print_scalar gap) fs []
        ≡ b'{' ∷ (body (shift gap (b'}' ∷ [])) fs ++ (b'}' ∷ []))
  print_object-body fs =
      rw (print_fields-append fs [] (b'}' ∷ []))
        (ap (◌∷◌ b'{') (pad-append gap (print_fields (shift gap (b'}' ∷ [])) fs []) (b'}' ∷ [])))

  pub print_items-append :
      (os : List Fields) (t rest : Bytes)
      → print_items gap os (t ++ rest) ≡ print_items (shift gap rest) os t ++ rest
  print_items-append [] t rest = refl
  print_items-append (fs ∷ more) t rest = rw (print_items-append more t rest) (
      rw sep-append (
        let tail : Bytes = sep (shift gap rest) more (print_items (shift gap rest) more t) in
        ap (print_object gap (print_scalar gap) fs) (pad-append gap tail rest)
        ∙ print_object-append fs (pad (shift gap rest) tail) rest))

  length-sep : {A : Type 0} (es : List A) (s : Bytes) → length s ≤ length (sep gap es s)
  length-sep [] s = omega arith
  length-sep (e ∷ es) s = omega (arith, length-append (gap s) s)

  length-print_scalar : (s : Scalar) (rest : Bytes) → length rest ≤ length (print_scalar gap s rest)
  length-print_scalar (number n) rest = omega (
    arith,
    ap length (digits-append 20 n [] (pad gap rest)),
    length-append (digits 20 n []) (pad gap rest),
    length-append (gap rest) rest,
  )
  length-print_scalar (text v) rest =
      omega (arith, length-append v (b'"' ∷ pad gap rest), length-append (gap rest) rest)
  length-print_scalar (flag b) rest =
      omega (arith, length-append (flag_text b) (pad gap rest), length-append (gap rest) rest)

  length-print_fields :
      (fs : Fields) (rest : Bytes) → length rest ≤ length (print_fields gap fs rest)
  length-print_fields [] rest = omega arith
  length-print_fields ((key, s) ∷ fs) rest =
      let tail : Bytes = sep gap fs (print_fields gap fs rest) in
      let value : Bytes = print_scalar gap s tail in
      omega (
        arith,
        length-append key (b'"' ∷ pad gap (b':' ∷ pad gap value)),
        length-append (gap (b':' ∷ pad gap value)) (b':' ∷ pad gap value),
        length-append (gap value) value,
        length-print_scalar s tail,
        length-sep fs (print_fields gap fs rest),
        length-print_fields fs rest,
      )

  pub length-print_items :
      (os : List Fields) (rest : Bytes) → length os ≤ length (print_items gap os rest)
  length-print_items [] rest = omega arith
  length-print_items (fs ∷ more) rest =
      let tail : Bytes = sep gap more (print_items gap more rest) in
      omega (
        arith,
        length-append (gap (print_fields gap fs (b'}' ∷ pad gap tail)))
            (print_fields gap fs (b'}' ∷ pad gap tail)),
        length-print_fields fs (b'}' ∷ pad gap tail),
        length-append (gap tail) tail,
        length-sep more (print_items gap more rest),
        length-print_items more rest,
      )

  module _ (spaces : (r : Bytes) → all is_space (gap r) ≡ true) where
    -- A test that holds of white space, digits, letters, and of what stands between fields.
    module _ (p : ℕ → Bool) (space : (c : ℕ) → is_space c ≡ true → p c ≡ true)
        (digit : (c : ℕ) → is_digit c ≡ true → p c ≡ true)
        (letter : (c : ℕ) → is_letter c ≡ true → p c ≡ true)
        (marks : (p b'"' && (p b':' && p b',')) ≡ true) where
      all-flag_text : (b : Bool) → all is_letter (flag_text b) ≡ true
      all-flag_text true = refl
      all-flag_text false = refl

      all-print_scalar :
          (s : Scalar) (rest : Bytes)
          → scalar_all p s ≡ true
          → all p rest ≡ true
          → all p (print_scalar gap s rest) ≡ true
      all-print_scalar (number n) rest h r =
          all-digits p digit 20 n (pad gap rest)
            (all-append p (gap rest) rest (gap-all gap spaces p space rest) r)
      all-print_scalar (text v) rest h r =
          let tail = all-append p (gap rest) rest (gap-all gap spaces p space rest) r in
          ground (arith, all-append p v (b'"' ∷ (pad gap rest)))
      all-print_scalar (flag b) rest h r =
          all-append p (flag_text b) (pad gap rest)
            (all_mono is_letter p letter (flag_text b) (all-flag_text b))
            (all-append p (gap rest) rest (gap-all gap spaces p space rest) r)

      all-sep :
          {A : Type 0} (es : List A) (s : Bytes) → all p s ≡ true → all p (sep gap es s) ≡ true
      all-sep [] s h = h
      all-sep (e ∷ es) s h = ground (arith, all-append p (gap s) s (gap-all gap spaces p space s) h)

      all-print_fields :
          (fs : Fields) (rest : Bytes)
          → fields_all p fs ≡ true
          → all p rest ≡ true
          → all p (print_fields gap fs rest) ≡ true
      all-print_fields [] rest h r = r
      all-print_fields ((key, s) ∷ fs) rest h r =
          let more = all-print_fields fs rest (ground arith) r in
          let tail =
            all-print_scalar s (sep gap fs (print_fields gap fs rest)) (ground arith)
              (all-sep fs (print_fields gap fs rest) more) in
          let word = all_mono is_letter p letter key (word-all key (ground arith)) in
          let value : Bytes = print_scalar gap s (sep gap fs (print_fields gap fs rest)) in
          let spaced = all-append p (gap value) value (gap-all gap spaces p space value) tail in
          let marked : Bytes = b':' ∷ pad gap value in
          let colon =
            all-append p (gap marked) marked (gap-all gap spaces p space marked) (ground arith) in
          ground (arith, all-append p key (b'"' ∷ pad gap marked) word)

      pub all-body : (fs : Fields) → fields_all p fs ≡ true → all p (body gap fs) ≡ true
      all-body fs h =
          all-append p (gap (print_fields gap fs [])) (print_fields gap fs [])
            (gap-all gap spaces p space (print_fields gap fs [])) (all-print_fields fs [] h refl)

      pub all-print_items :
          (os : List Fields) (rest : Bytes)
          → (p b'{' && p b'}') ≡ true
          → items_all p os ≡ true
          → all p rest ≡ true
          → all p (print_items gap os rest) ≡ true
      all-print_items [] rest q h r = r
      all-print_items (fs ∷ more) rest q h r =
          let tail : Bytes = sep gap more (print_items gap more rest) in
          let last = all-append p (gap tail) tail (gap-all gap spaces p space tail) (
            all-sep more (print_items gap more rest)
              (all-print_items more rest q (ground arith) r)) in
          let inner : Bytes = print_fields gap fs (b'}' ∷ pad gap tail) in
          let fields = all-print_fields fs (b'}' ∷ pad gap tail) (ground arith) (ground arith) in
          ground (arith, all-append p (gap inner) inner (gap-all gap spaces p space inner) fields)
