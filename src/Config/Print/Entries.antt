-- ===== src/Config/Print/Entries.antt =====
-- Printed entries under a search: the entries of other keys are passed over, and the value behind the
-- key is what the scanner goes to.
use mathlib.Core.List.{append_assoc}
use ngfwtraffic_gen.Common.{
  ℕ, ◌≡◌, refl, sym, ap, ◌∙◌, Bool, true, false, not, ◌&&◌, some, List, [], ◌∷◌, ◌++◌, Bytes, ◌==◌,
  arith,
}
use ngfwtraffic_gen.Config.Print.Decimal.{digits-append, all-digits}
use ngfwtraffic_gen.Config.Print.Find.{
  all, all_mono, all-append, is_letter, not_quote, is_word, word-all, breaks, equal, find-not_quote,
  find-quoted_ne, find-quoted, find_char-append,
}
use ngfwtraffic_gen.Config.Print.{
  Scalar, number, text, flag, flag_text, digits, pad, sep, print_scalar, print_entries,
}
use ngfwtraffic_gen.Config.Scan.{
  find_text, find_char, is_space, skip_space, raw_at, quoted, find_raw_value,
}

pub word-not_quote : (k : Bytes) → is_word k ≡ true → all not_quote k ≡ true
word-not_quote k w = all_mono is_letter not_quote (λ c h. ground arith) k (word-all k w)

abbrev pub not_colon : ℕ → Bool
not_colon c = not (c == b':')

-- A scalar that a search for `k` passes over, and that no search is misled by.
abbrev pub scalar_skips : Bytes → Scalar → Bool
scalar_skips k (number n) = true
scalar_skips k (text v) = all not_quote v && not (equal k v)
scalar_skips k (flag b) = true

abbrev pub skips : {V : Type 0} → (V → Bool) → Bytes → List (Bytes × V) → Bool
skips ok k [] = true
skips ok k ((key, v) ∷ es) = is_word key && (not (equal k key) && (ok v && skips ok k es))

find_char-quoted :
    (k white rest : Bytes)
    → is_word k ≡ true
    → all is_space white ≡ true
    → find_char b':' (b'"' ∷ (k ++ (b'"' ∷ (white ++ (b':' ∷ rest))))) ≡ some (b':' ∷ rest)
find_char-quoted k white rest w h =
    let letters = all_mono is_letter not_colon (λ x l. ground arith) k (word-all k w) in
    let spaces = all_mono is_space not_colon (λ x l. ground arith) white h in
    ap (find_char b':') (sym (append_assoc (b'"' ∷ k) (b'"' ∷ white) (b':' ∷ rest)))
    ∙ find_char-append b':' ((b'"' ∷ k) ++ (b'"' ∷ white)) rest
        (ground (arith, all-append not_colon k (b'"' ∷ white) letters))

module _ (gap : Bytes → Bytes) (spaces : (r : Bytes) → all is_space (gap r) ≡ true) where
  pub gap-all :
      (p : ℕ → Bool)
      → ((c : ℕ) → is_space c ≡ true → p c ≡ true)
      → (r : Bytes) → all p (gap r) ≡ true
  gap-all p h r = all_mono is_space p h (gap r) (spaces r)

  gap_not_quote : (r : Bytes) → all not_quote (gap r) ≡ true
  gap_not_quote = gap-all not_quote (λ c h. ground arith)

  breaks-space :
      (s rest : Bytes) → all is_space s ≡ true → breaks rest ≡ true → breaks (s ++ rest) ≡ true
  breaks-space [] rest h b = b
  breaks-space (c ∷ s) rest h b = ground arith

  pub breaks-gap : (rest : Bytes) → breaks rest ≡ true → breaks (pad gap rest) ≡ true
  breaks-gap rest b = breaks-space (gap rest) rest (spaces rest) b

  skip_space-append :
      (s rest : Bytes) → all is_space s ≡ true → skip_space (s ++ rest) ≡ skip_space rest
  unfolding skip_space
  skip_space-append [] rest h = refl
  skip_space-append (c ∷ s) rest h = ground (arith, skip_space-append s rest)

  pub skip_space-gap : (rest : Bytes) → skip_space (pad gap rest) ≡ skip_space rest
  skip_space-gap rest = skip_space-append (gap rest) rest (spaces rest)

  pub find-gap : (k rest : Bytes) → find_text (quoted k) (pad gap rest) ≡ find_text (quoted k) rest
  find-gap k rest = find-not_quote k (gap rest) rest (gap_not_quote rest)

  pub find-mark :
      (k rest : Bytes) (c : ℕ)
      → not_quote c ≡ true
      → find_text (quoted k) (c ∷ (pad gap rest)) ≡ find_text (quoted k) rest
  find-mark k rest c h = find-not_quote k (c ∷ gap rest) rest (ground (arith, gap_not_quote rest))

  flag-not_quote : (b : Bool) → all not_quote (flag_text b) ≡ true
  flag-not_quote true = refl
  flag-not_quote false = refl

  pub find-print_scalar :
      (k : Bytes) (s : Scalar) (rest : Bytes)
      → is_word k ≡ true
      → scalar_skips k s ≡ true
      → breaks rest ≡ true
      → find_text (quoted k) (print_scalar gap s rest) ≡ find_text (quoted k) rest
  find-print_scalar k (number n) rest w h b =
      ap (find_text (quoted k)) (digits-append 20 n [] (pad gap rest))
      ∙ find-not_quote k (digits 20 n []) (pad gap rest)
          (all-digits not_quote (λ c h. ground arith) 20 n [] refl)
      ∙ find-gap k rest
  find-print_scalar k (text v) rest w h b =
      find-quoted_ne k v (pad gap rest) w (ground arith) (ground arith) (breaks-gap rest b)
      ∙ find-gap k rest
  find-print_scalar k (flag b') rest w h b =
      find-not_quote k (flag_text b') (pad gap rest) (flag-not_quote b') ∙ find-gap k rest

  module _ {V : Type 0} (print : V → Bytes → Bytes) (ok : V → Bool) (k : Bytes)
      (word : is_word k ≡ true)
      (pass : (v : V) (rest : Bytes)
        → ok v ≡ true
        → breaks rest ≡ true
        → find_text (quoted k) (print v rest) ≡ find_text (quoted k) rest) where
    find-sep :
        {A : Type 0} (es : List A) (rest : Bytes)
        → find_text (quoted k) (sep gap es rest) ≡ find_text (quoted k) rest
    find-sep [] rest = refl
    find-sep (e ∷ es) rest = find-mark k rest b',' refl

    breaks-print_entries :
        (es : List (Bytes × V)) (rest : Bytes)
        → breaks rest ≡ true
        → breaks (sep gap es (print_entries gap print es rest)) ≡ true
    breaks-print_entries [] rest b = b
    breaks-print_entries (e ∷ es) rest b = refl

    find_entry :
        (key : Bytes) (v : V) (rest : Bytes)
        → (is_word key && (not (equal k key) && ok v)) ≡ true
        → breaks rest ≡ true
        → find_text (quoted k) (b'"' ∷ (key ++ (b'"' ∷ pad gap (b':' ∷ pad gap (print v rest)))))
          ≡ find_text (quoted k) rest
    find_entry key v rest h b =
        find-quoted_ne k key (pad gap (b':' ∷ pad gap (print v rest))) word
          (word-not_quote key (ground arith)) (ground arith) (breaks-gap _ refl)
        ∙ find-gap k (b':' ∷ pad gap (print v rest))
        ∙ find-mark k (print v rest) b':' refl
        ∙ pass v rest (ground arith) b

    -- Entries of other keys are passed over.
    pub find-print_entries :
        (es : List (Bytes × V)) (rest : Bytes)
        → skips ok k es ≡ true
        → breaks rest ≡ true
        → find_text (quoted k) (print_entries gap print es rest) ≡ find_text (quoted k) rest
    find-print_entries [] rest h b = refl
    find-print_entries ((key, v) ∷ es) rest h b =
        find_entry key v (sep gap es (print_entries gap print es rest)) (ground arith)
          (breaks-print_entries es rest b)
        ∙ find-sep es (print_entries gap print es rest)
        ∙ find-print_entries es rest (ground arith) b

    find-print_entries_hit :
        (pre post : List (Bytes × V)) (v : V) (rest : Bytes)
        → skips ok k pre ≡ true
        → breaks rest ≡ true
        → let tail = sep gap post (print_entries gap print post rest) in
          find_text (quoted k) (print_entries gap print (pre ++ ((k, v) ∷ post)) rest)
          ≡ some (b'"' ∷ (k ++ (b'"' ∷ pad gap (b':' ∷ pad gap (print v tail)))))
    find-print_entries_hit [] post v rest h b = find-quoted k _
    find-print_entries_hit ((key, u) ∷ pre) post v rest h b =
        let es : List (Bytes × V) = pre ++ ((k, v) ∷ post) in
        find_entry key u (sep gap es (print_entries gap print es rest)) (ground arith)
          (breaks-print_entries es rest b)
        ∙ find-sep es (print_entries gap print es rest)
        ∙ find-print_entries_hit pre post v rest (ground arith) b

    -- The value of a key, behind a bracket and entries of other keys.
    pub find_raw_value-print_entries :
        (c : ℕ) (pre post : List (Bytes × V)) (v : V) (rest : Bytes)
        → not_quote c ≡ true
        → skips ok k pre ≡ true
        → breaks rest ≡ true
        → find_raw_value (c ∷ (pad gap (print_entries gap print (pre ++ ((k, v) ∷ post)) rest))) k
          ≡ raw_at (skip_space (print v (sep gap post (print_entries gap print post rest))))
    unfolding find_raw_value
    find_raw_value-print_entries c pre post v rest q h b =
        let value : Bytes = print v (sep gap post (print_entries gap print post rest)) in
        let here =
          find-mark k (print_entries gap print (pre ++ ((k, v) ∷ post)) rest) c q
          ∙ find-print_entries_hit pre post v rest h b in
        rw here (
          rw (find_char-quoted k (gap (b':' ∷ pad gap value)) (pad gap value) word (spaces _))
            (rw skip_space-gap refl))
