-- ===== src/Addresses/Ordinals/Swapped.antt =====
-- shared/address.py, `expand_ordinals`: back and forth between the spellings.
use geocoder_fwd.Prelude.{
  ℕ, ◌+◌, ◌-◌, ◌*◌, ◌≡◌, ◌⊎◌, refl, ap, ◌∙◌, Bool, true, false, ◌&&◌, ◌||◌, Option, none, some,
  List, [], ◌∷◌, ◌==◌, ==_iff, leb, if◌then◌else◌, any, get_or, All, drop, Bool-cases, inl, inr,
}
use geocoder_fwd.Addresses.{Text}
use geocoder_fwd.Addresses.Texts.{equal, every}
use geocoder_fwd.Addresses.Ordinals.{
  ordinal_words, num_to_ordinal_suffix, ordinal_digits, swapped_low, swapped, swap_all,
}

-- The digits and the small letters of ASCII, which the ordinals are written with.
abbrev pub is_plain : ℕ → Bool
is_plain c = leb 48 c && leb c 57 || leb 97 c && leb c 122

abbrev pub ascii_digit : ℕ → Option ℕ
ascii_digit c = if leb 48 c && leb c 57 then some (c - 48) else none

abbrev pub unchanged : Text → Text
unchanged t = t

abbrev pub is_ordinal_word : Text → Bool
is_ordinal_word t = any (equal t) (drop 1 ordinal_words)

-- A word and its number are spellings of each other.
abbrev IsPair : Text → Text → Type 0
IsPair t x =
    (every is_plain t ≡ true)
    × (every is_plain x ≡ true)
    × (swapped unchanged ascii_digit t ≡ some x)
    × (swapped unchanged ascii_digit x ≡ some t)

abbrev HasPair : Text → Type 0
HasPair t = (x : Text) × IsPair t x

pairs : All HasPair (drop 1 ordinal_words)
unfolding swapped ordinal_digits num_to_ordinal_suffix
pairs = (
  (num_to_ordinal_suffix 1, (refl, refl, refl, refl)),
  (
    (num_to_ordinal_suffix 2, (refl, refl, refl, refl)),
    (
      (num_to_ordinal_suffix 3, (refl, refl, refl, refl)),
      (
        (num_to_ordinal_suffix 4, (refl, refl, refl, refl)),
        (
          (num_to_ordinal_suffix 5, (refl, refl, refl, refl)),
          (
            (num_to_ordinal_suffix 6, (refl, refl, refl, refl)),
            (
              (num_to_ordinal_suffix 7, (refl, refl, refl, refl)),
              (
                (num_to_ordinal_suffix 8, (refl, refl, refl, refl)),
                (
                  (num_to_ordinal_suffix 9, (refl, refl, refl, refl)),
                  (
                    (num_to_ordinal_suffix 10, (refl, refl, refl, refl)),
                    (
                      (num_to_ordinal_suffix 11, (refl, refl, refl, refl)),
                      (
                        (num_to_ordinal_suffix 12, (refl, refl, refl, refl)),
                        (
                          (num_to_ordinal_suffix 13, (refl, refl, refl, refl)),
                          (
                            (num_to_ordinal_suffix 14, (refl, refl, refl, refl)),
                            (
                              (num_to_ordinal_suffix 15, (refl, refl, refl, refl)),
                              (
                                (num_to_ordinal_suffix 16, (refl, refl, refl, refl)),
                                (
                                  (num_to_ordinal_suffix 17, (refl, refl, refl, refl)),
                                  (
                                    (num_to_ordinal_suffix 18, (refl, refl, refl, refl)),
                                    (
                                      (num_to_ordinal_suffix 19, (refl, refl, refl, refl)),
                                      ((num_to_ordinal_suffix 20, (refl, refl, refl, refl)), tt),
                                    ),
                                  ),
                                ),
                              ),
                            ),
                          ),
                        ),
                      ),
                    ),
                  ),
                ),
              ),
            ),
          ),
        ),
      ),
    ),
  ),
)

equal→≡ : (s t : Text) → equal s t ≡ true → s ≡ t
equal→≡ [] [] h = refl
equal→≡ [] (d ∷ t) h = cc
equal→≡ (c ∷ s) [] h = cc
equal→≡ (c ∷ s) (d ∷ t) h = elim (Bool-cases (c == d)) [
  | inl e ↦
      let head : c ≡ d = (==_iff c d).0 e in
      let tail : s ≡ t = equal→≡ s t (rw e at h) in ap (λ x. x ∷ s) head ∙ ap (λ u. d ∷ u) tail
  | inr e ↦ let no : false ≡ true = rw e at h in cc
]

any-All : (P : Text → Type 0) (t : Text) (ws : List Text) → All P ws → any (equal t) ws ≡ true → P t
any-All P t [] all h = cc
any-All P t (w ∷ ws) (good, all) h = elim (Bool-cases (equal t w)) [
  | inl e ↦ rw (equal→≡ t w e) good
  | inr e ↦ any-All P t ws all (rw e at h)
]

module _ (lower : Text → Text) (digit : ℕ → Option ℕ)
    (lower_plain : (t : Text) → every is_plain t ≡ true → lower t ≡ t)
    (digit_plain : (c : ℕ) → is_plain c ≡ true → digit c ≡ ascii_digit c) where
  digits_plain :
      (n : Option ℕ) (t : Text)
      → every is_plain t ≡ true
      → ordinal_digits lower digit n t ≡ ordinal_digits unchanged ascii_digit n t
  unfolding ordinal_digits
  digits_plain n [] h = refl
  digits_plain n (c ∷ t) h = elim (Bool-cases (is_plain c)) [
    | inr e ↦ let no : false ≡ true = rw e at h in cc
    | inl e ↦
        let later : every is_plain t ≡ true = rw e at h in
        let here : digit c ≡ ascii_digit c = digit_plain c e in
        elim (Bool-cases (leb 48 c && leb c 57)) [
          | inl d ↦
              rw (here, ordinal_digits)
                (rw (d, ordinal_digits) (digits_plain (some (get_or 0 n * 10 + (c - 48))) t later))
          | inr d ↦ rw (here, ordinal_digits) (rw (d, ordinal_digits) refl)
        ]
  ]

  swapped_plain :
      (t : Text) → every is_plain t ≡ true → swapped lower digit t ≡ swapped unchanged ascii_digit t
  unfolding swapped
  swapped_plain t h =
      rw (lower_plain t h) (ap (swapped_low unchanged ascii_digit t) (digits_plain none t h))

  abbrev IsKept : Text → Type 0
  IsKept t = (is_ordinal_word t ≡ true) ⊎ (swapped lower digit t ≡ none)

  -- Swapping the spelling of every ordinal twice gives the tokens back, if each is the word for an ordinal up
  -- to the twentieth, or no ordinal.
  pub swap_all_twice :
      (toks : List Text) → All IsKept toks → swap_all lower digit (swap_all lower digit toks) ≡ toks
  unfolding swap_all
  swap_all_twice [] all = refl
  swap_all_twice (t ∷ toks) (inr alone, all) =
      let rest = swap_all_twice toks all in rw alone (rw alone (ap (λ ts. t ∷ ts) rest))
  swap_all_twice (t ∷ toks) (inl word, all) =
      let rest = swap_all_twice toks all in
      let (x, (plain, plain', there, back)) = any-All HasPair t (drop 1 ordinal_words) pairs word in
      let there' : swapped lower digit t ≡ some x = swapped_plain t plain ∙ there in
      let back' : swapped lower digit x ≡ some t = swapped_plain x plain' ∙ back in
      rw there' (rw back' (ap (λ ts. t ∷ ts) rest))
