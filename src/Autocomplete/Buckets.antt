-- ===== src/Autocomplete/Buckets.antt =====
-- shared/autocomplete.py: the bucket of a query and the prefixes of the index.
use geocoder_fwd.Prelude.{
  ℕ, zero, suc, ◌≤◌, ◌≡◌, ◌⊎◌, refl, sym, ap, ◌∙◌, min, Bool, true, false, List, [], ◌∷◌, ◌++◌,
  ◌==◌, map, leb, length, take, filter, flatten, any, All, arith, Bool-cases, inl, inr,
}
use geocoder_fwd.Autocomplete.{
  Text, same_text, starts_with, words, min_prefix, max_prefix, prefixes, articles, head_word,
  starts_head, text_tier, index_prefixes, bucket,
}
use geocoder_fwd.Autocomplete.Laws.{is_some}

starts_length : (q s : Text) → starts_with q s ≡ true → length q ≤ length s
starts_length [] s h = omega arith
starts_length (a ∷ q) [] h = cc
starts_length (a ∷ q) (b ∷ s) h = elim (Bool-cases (a == b)) [
  | inl e ↦ omega (arith, starts_length q s (rw e at h))
  | inr e ↦ let no : false ≡ true = rw e at h in cc
]

same_text_refl : (s : Text) → same_text s s ≡ true
same_text_refl [] = refl
same_text_refl (a ∷ s) = let e : (a == a) ≡ true = ground arith in rw e (same_text_refl s)

-- What begins a text is cut like the text.
take-starts_with :
    (n : ℕ) (q s : Text) → starts_with q s ≡ true → take n q ≡ take (min n (length q)) s
take-starts_with zero q s h = let e : min 0 (length q) ≡ 0 = omega arith in rw e refl
take-starts_with (suc n) [] s h = let e : min (suc n) 0 ≡ 0 = omega arith in rw e refl
take-starts_with (suc n) (a ∷ q) [] h = cc
take-starts_with (suc n) (a ∷ q) (b ∷ s) h = elim (Bool-cases (a == b)) [
  | inr e ↦ let no : false ≡ true = rw e at h in cc
  | inl e ↦
      let same : a ≡ b = ground (arith, e) in
      let rest = take-starts_with n q s (rw e at h) in
      let fewer : min (suc n) (suc (length q)) ≡ suc (min n (length q)) = omega arith in
      rw fewer (ap (λ x. x ∷ take n q) same ∙ ap (λ t. b ∷ t) rest)
]

cut_among :
    (k : ℕ) (s : Text) (ns : List ℕ)
    → k ≤ length s
    → any (λ n. k == n) ns ≡ true
    → any (same_text (take k s)) (map (λ n. take n s) (filter (λ n. leb n (length s)) ns)) ≡ true
cut_among k s [] le h = cc
cut_among k s (n ∷ ns) le h = elim (Bool-cases (k == n)) [
  | inl e ↦
      let same : k ≡ n = ground (arith, e) in
      let fits : leb n (length s) ≡ true = ground (arith, same, le) in
      let found : same_text (take k s) (take n s) ≡ true =
        ap (λ j. same_text (take k s) (take j s)) (sym same) ∙ same_text_refl (take k s) in
      rw fits (rw found refl)
  | inr e ↦
      let later = cut_among k s ns le (rw e at h) in
      elim (Bool-cases (leb n (length s))) [
        | inr f ↦ rw f later
        | inl f ↦ elim (Bool-cases (same_text (take k s) (take n s))) [
          | inl g ↦ rw f (rw g refl)
          | inr g ↦ rw f (rw g later)
        ]
      ]
]

-- The bucket of a query is one of the prefixes of each text that begins with the query.
bucket-prefixes :
    (q s : Text)
    → 2 ≤ length q
    → starts_with q s ≡ true
    → any (same_text (take max_prefix q)) (prefixes s) ≡ true
unfolding prefixes
bucket-prefixes q s long h =
    let k : ℕ = min 6 (length q) in
    let fits : k ≤ length s = omega (arith, starts_length q s h) in
    let among : any (λ n. k == n) (2 ∷ 3 ∷ 4 ∷ 5 ∷ 6 ∷ []) ≡ true = ground (arith, long) in
    rw (take-starts_with 6 q s h) (cut_among k s (2 ∷ 3 ∷ 4 ∷ 5 ∷ 6 ∷ []) fits among)

module _ {A : Type 0} (p : A → Bool) where
  any_left : (xs ys : List A) → any p xs ≡ true → any p (xs ++ ys) ≡ true
  any_left [] ys h = cc
  any_left (x ∷ xs) ys h = elim (Bool-cases (p x)) [
    | inl e ↦ rw e refl
    | inr e ↦ rw e (any_left xs ys (rw e at h))
  ]

  any_right : (xs ys : List A) → any p ys ≡ true → any p (xs ++ ys) ≡ true
  any_right [] ys h = h
  any_right (x ∷ xs) ys h = elim (Bool-cases (p x)) [
    | inl e ↦ rw e refl
    | inr e ↦ rw e (any_right xs ys h)
  ]

same-starts_with : (s q : Text) → same_text s q ≡ true → starts_with q s ≡ true
same-starts_with [] [] h = refl
same-starts_with [] (b ∷ q) h = cc
same-starts_with (a ∷ s) [] h = refl
same-starts_with (a ∷ s) (b ∷ q) h = elim (Bool-cases (a == b)) [
  | inl e ↦
      let flipped : (b == a) ≡ true = ground (arith, e) in
      rw flipped (same-starts_with s q (rw e at h))
  | inr e ↦ let no : false ≡ true = rw e at h in cc
]

head_among :
    (q : Text) (ws : List Text)
    → starts_head q (head_word ws) ≡ true
    → any (starts_with q) ws ≡ true
head_among q [] h = cc
head_among q (w ∷ []) h = let e : starts_with q w ≡ true = h in rw e refl
head_among q (w ∷ v ∷ ws) h = elim (Bool-cases (any (same_text w) articles)) [
  | inl e ↦
      let f : starts_with q v ≡ true = rw (e, starts_head) at h in
      elim (Bool-cases (starts_with q w)) [ inl g ↦ rw g refl | inr g ↦ rw g (rw f refl) ]
  | inr e ↦ let f : starts_with q w ≡ true = rw (e, starts_head) at h in rw f refl
]

-- A text that has a tier begins with the query, or one of its words does.
text_tier_some :
    (q text : Text)
    → is_some (text_tier q text) ≡ true
    → (starts_with q text ≡ true) ⊎ (any (starts_with q) (words text) ≡ true)
unfolding text_tier
text_tier_some q text h = elim (Bool-cases (same_text text q)) [
  | inl e ↦ inl (same-starts_with text q e)
  | inr e ↦ elim (Bool-cases (starts_with q text)) [
    | inl f ↦ inl f
    | inr f ↦ elim (Bool-cases (starts_head q (head_word (words text)))) [
      | inl g ↦ inr (head_among q (words text) g)
      | inr g ↦ elim (Bool-cases (any (starts_with q) (words text))) [
        | inl k ↦ inr k
        | inr k ↦ let no : false ≡ true = rw (e, f, g, k) at h in cc
      ]
    ]
  ]
]

module _ (normalise : Text → Text) where
  -- A word that begins with the query is filed under its bucket.
  word_bucket :
      (q : Text) (ws : List Text)
      → 2 ≤ length q
      → All (λ w. normalise w ≡ w) ws
      → any (starts_with q) ws ≡ true
      → any
          (same_text (take max_prefix q))
          (flatten (map (λ w. prefixes (normalise w)) (filter (λ w. leb min_prefix (length w)) ws)))
        ≡ true
  word_bucket q [] long fixed h = cc
  word_bucket q (w ∷ ws) long (fix, fixed) h = elim (Bool-cases (starts_with q w)) [
    | inl e ↦
        let kept : leb min_prefix (length w) ≡ true = ground (arith, starts_length q w e, long) in
        let here : any (same_text (take max_prefix q)) (prefixes (normalise w)) ≡ true =
          ap (λ v. any (same_text (take max_prefix q)) (prefixes v)) fix
          ∙ bucket-prefixes q w long e in
        rw kept (any_left (same_text (take max_prefix q)) (prefixes (normalise w)) _ here)
    | inr e ↦
        let later = word_bucket q ws long fixed (rw e at h) in
        elim (Bool-cases (leb min_prefix (length w))) [
          | inl f ↦
              rw f (any_right (same_text (take max_prefix q)) (prefixes (normalise w)) _ later)
          | inr f ↦ rw f later
        ]
  ]

  -- If a text matches a query of two letters or more in any tier, the bucket that `query` reads is one of
  -- those under which `index_entry` files the text, for a `normalise` that leaves the words of a
  -- normalised text as they are.
  pub index_prefixes-bucket :
      (q raw : Text)
      → 2 ≤ length q
      → All (λ w. normalise w ≡ w) (words (normalise raw))
      → is_some (text_tier q (normalise raw)) ≡ true
      → any (same_text (bucket normalise q)) (index_prefixes normalise raw) ≡ true
  unfolding index_prefixes
  index_prefixes-bucket q raw long fixed h = elim (text_tier_some q (normalise raw) h) [
    | inl begins ↦
        any_left (same_text (take max_prefix q)) (prefixes (normalise raw)) _
          (bucket-prefixes q (normalise raw) long begins)
    | inr word ↦
        any_right (same_text (take max_prefix q)) (prefixes (normalise raw)) _
          (word_bucket q (words (normalise raw)) long fixed word)
  ]
