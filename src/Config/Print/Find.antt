-- ===== src/Config/Print/Find.antt =====
-- `find_text` and `find_char` over printed text: what a search for a key passes over, and what it hits.
use mathlib.Core.List.{append_assoc}
use ngfwtraffic_gen.Common.{
  ℕ, ◌≡◌, refl, sym, ap, ◌∙◌, Bool, true, false, not, ◌&&◌, ◌||◌, none, some, [], ◌∷◌, ◌++◌, Bytes,
  leb, ◌==◌, ==_refl, arith,
}
use ngfwtraffic_gen.Config.Scan.{starts_with, find_text, find_char, quoted}

-- Every byte passes the test.
abbrev pub all : (ℕ → Bool) → Bytes → Bool
all p [] = true
all p (c ∷ s) = p c && all p s

abbrev pub is_letter : ℕ → Bool
is_letter c = leb b'a' c && leb c b'z' || c == b'_'

abbrev pub not_quote : ℕ → Bool
not_quote c = not (c == b'"')

-- A key: letters, and one at least.
abbrev pub is_word : Bytes → Bool
is_word [] = false
is_word (c ∷ s) = is_letter c && all is_letter s

-- A text that does not go on with a letter.
abbrev pub breaks : Bytes → Bool
breaks [] = true
breaks (c ∷ s) = not (is_letter c)

abbrev pub equal : Bytes → Bytes → Bool
equal [] [] = true
equal [] (_ ∷ _) = false
equal (_ ∷ _) [] = false
equal (x ∷ xs) (y ∷ ys) = x == y && equal xs ys

pub all_mono :
    (p q : ℕ → Bool) (h : (c : ℕ) → p c ≡ true → q c ≡ true) (s : Bytes)
    → all p s ≡ true
    → all q s ≡ true
all_mono p q h [] e = refl
all_mono p q h (c ∷ s) e = ground (arith, h c, all_mono p q h s)

pub all-append :
    (p : ℕ → Bool) (s t : Bytes) → all p s ≡ true → all p t ≡ true → all p (s ++ t) ≡ true
all-append p [] t e f = f
all-append p (c ∷ s) t e f = ground (arith, all-append p s t)

pub word-all : (k : Bytes) → is_word k ≡ true → all is_letter k ≡ true
word-all [] h = refl
word-all (c ∷ s) h = h

pub find-not_quote :
    (k v rest : Bytes)
    → all not_quote v ≡ true
    → find_text (quoted k) (v ++ rest) ≡ find_text (quoted k) rest
unfolding find_text starts_with
find-not_quote k [] rest h = refl
find-not_quote k (c ∷ v) rest h = ground (arith, find-not_quote k v rest)

-- A quote behind which no key begins.
pub find-breaks :
    (k rest : Bytes)
    → is_word k ≡ true
    → breaks rest ≡ true
    → find_text (quoted k) (b'"' ∷ rest) ≡ find_text (quoted k) rest
unfolding find_text starts_with
find-breaks [] rest w b = cc
find-breaks (k ∷ ks) [] w b = refl
find-breaks (k ∷ ks) (c ∷ s) w b = ground arith

starts_with-equal :
    (k v rest : Bytes)
    → all is_letter k ≡ true
    → all not_quote v ≡ true
    → starts_with (k ++ (b'"' ∷ [])) (v ++ (b'"' ∷ rest)) ≡ equal k v
unfolding starts_with
starts_with-equal [] [] rest w h = refl
starts_with-equal [] (c ∷ v) rest w h = ground arith
starts_with-equal (k ∷ ks) [] rest w h = ground arith
starts_with-equal (k ∷ ks) (c ∷ v) rest w h = ground (arith, starts_with-equal ks v rest)

find-quote :
    (k v rest : Bytes)
    → starts_with (k ++ (b'"' ∷ [])) (v ++ (b'"' ∷ rest)) ≡ false
    → find_text (quoted k) (b'"' ∷ (v ++ (b'"' ∷ rest))) ≡ find_text (quoted k) (v ++ (b'"' ∷ rest))
unfolding find_text starts_with
find-quote k v rest e = ground arith

-- A quoted text other than the key is passed over.
pub find-quoted_ne :
    (k v rest : Bytes)
    → is_word k ≡ true
    → all not_quote v ≡ true
    → equal k v ≡ false
    → breaks rest ≡ true
    → find_text (quoted k) (b'"' ∷ (v ++ (b'"' ∷ rest))) ≡ find_text (quoted k) rest
find-quoted_ne k v rest w h ne b =
    find-quote k v rest (starts_with-equal k v rest (word-all k w) h ∙ ne)
    ∙ find-not_quote k v (b'"' ∷ rest) h
    ∙ find-breaks k rest w b

starts_with_self : (p rest : Bytes) → starts_with p (p ++ rest) ≡ true
unfolding starts_with
starts_with_self [] rest = refl
starts_with_self (c ∷ p) rest = ground (arith, starts_with_self p rest)

-- The key itself is hit.
pub find-quoted :
    (k rest : Bytes)
    → find_text (quoted k) (b'"' ∷ (k ++ (b'"' ∷ rest))) ≡ some (b'"' ∷ (k ++ (b'"' ∷ rest)))
unfolding find_text
find-quoted k rest =
    let whole : quoted k ++ rest ≡ b'"' ∷ (k ++ (b'"' ∷ rest)) =
      ap (◌∷◌ b'"') (append_assoc k (b'"' ∷ []) rest) in
    let hit : starts_with (quoted k) (b'"' ∷ (k ++ (b'"' ∷ rest))) ≡ true =
      ap (starts_with (quoted k)) (sym whole) ∙ starts_with_self (quoted k) rest in
    rw hit refl

pub find_char-append :
    (c : ℕ) (v rest : Bytes)
    → all (λ x. not (x == c)) v ≡ true
    → find_char c (v ++ (c ∷ rest)) ≡ some (c ∷ rest)
unfolding find_char
find_char-append c [] rest h = rw (==_refl c) refl
find_char-append c (x ∷ v) rest h = ground (arith, find_char-append c v rest)

pub find_char-none : (c : ℕ) (v : Bytes) → all (λ x. not (x == c)) v ≡ true → find_char c v ≡ none
unfolding find_char
find_char-none c [] h = refl
find_char-none c (x ∷ v) h = ground (arith, find_char-none c v)
