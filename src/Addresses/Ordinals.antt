-- ===== src/Addresses/Ordinals.antt =====
-- shared/address.py, `expand_ordinals`. The lower case and the value of a decimal digit are arguments.
pub mod Swapped
use geocoder_fwd.Prelude.{
  ℕ, zero, suc, ◌+◌, ◌-◌, ◌*◌, ◌/◌, ◌%◌, ◌≡◌, ◌≤◌, ◌<◌, refl, sym, ap, ◌∙◌, Bool, true, false, not,
  ◌&&◌, ◌||◌, Option, none, some, List, [], ◌∷◌, ◌++◌, ◌==◌, leb, ltb, if◌then◌else◌, any, map,
  get_or, codes, All,
}
use geocoder_fwd.Addresses.{Text, is_empty, is_space, is_some, joined}
use geocoder_fwd.Addresses.Texts.{equal}

-- _ORDINAL_WORDS
abbrev pub ordinal_words : List Text
ordinal_words = map codes (
    "zeroth" ∷ "first" ∷ "second" ∷ "third" ∷ "fourth" ∷ "fifth" ∷ "sixth" ∷ "seventh" ∷ "eighth"
    ∷ "ninth" ∷ "tenth" ∷ "eleventh" ∷ "twelfth" ∷ "thirteenth" ∷ "fourteenth" ∷ "fifteenth"
    ∷ "sixteenth" ∷ "seventeenth" ∷ "eighteenth" ∷ "nineteenth" ∷ "twentieth" ∷ [])

abbrev pub nth : {A : Type 0} → List A → ℕ → Option A
nth [] n = none
nth (x ∷ xs) n = let rest = nth xs (n - 1) in if n == 0 then some x else rest

-- _ORD_WORD_TO_NUM, from the position of the first word on.
abbrev pub position : ℕ → Text → List Text → Option ℕ
position n t [] = none
position n t (w ∷ ws) = let rest = position (n + 1) t ws in if equal w t then some n else rest

-- `str(n)`, for the numbers below 100: no other is written.
abbrev pub two_digits : ℕ → Text
two_digits n = if ltb n 10 then (48 + n) ∷ [] else (48 + n / 10) ∷ (48 + n % 10) ∷ []

unfoldable pub num_to_ordinal_suffix : ℕ → Text
num_to_ordinal_suffix n =
    two_digits n
    ++ codes (
        if leb 10 (n % 100) && leb (n % 100) 20
        then "th"
        else if n % 10 == 1
        then "st"
        else if n % 10 == 2
        then "nd"
        else if n % 10 == 3
        then "rd"
        else "th")

-- `str.split()`, from the right.
abbrev pub split_space : Text → Text × List Text
split_space [] = ([], [])
split_space (c ∷ s) =
    let (w, ws) = split_space s in
    if is_space c then ([], if is_empty w then ws else w ∷ ws) else (c ∷ w, ws)

abbrev pub tokens : Text → List Text
tokens q = let (w, ws) = split_space q in if is_empty w then ws else w ∷ ws

module _ (lower : Text → Text) (digit : ℕ → Option ℕ) where
  -- `^(\d+)(?:st|nd|rd|th)$`, with the number read so far.
  unfoldable pub ordinal_digits : Option ℕ → Text → Option ℕ
  ordinal_digits n [] = none
  ordinal_digits n (c ∷ t) = elim (digit c) [
    | some d ↦ ordinal_digits (some (get_or 0 n * 10 + d)) t
    | none ↦ if any (equal (c ∷ t)) (map codes ("st" ∷ "nd" ∷ "rd" ∷ "th" ∷ [])) then n else none
  ]

  abbrev pub word_of : ℕ → Option Text
  word_of n = if leb 1 n && leb n 20 then nth ordinal_words n else none

  abbrev pub number_of : Option ℕ → Option Text
  number_of none = none
  number_of (some n) = if leb 1 n then some (num_to_ordinal_suffix n) else none

  abbrev pub swapped_low : Text → Option ℕ → Option Text
  swapped_low low (some n) = word_of n
  swapped_low low none = number_of (position 0 low ordinal_words)

  -- The other spelling of a token, if it is an ordinal.
  unfoldable pub swapped : Text → Option Text
  unfolding num_to_ordinal_suffix ordinal_digits
  swapped t = swapped_low (lower t) (ordinal_digits none (lower t))

  unfoldable pub swap_all : List Text → List Text
  unfolding swapped
  swap_all [] = []
  swap_all (t ∷ toks) = get_or t (swapped t) ∷ swap_all toks

  unfoldable pub expand_ordinals : Text → List Text
  unfolding swapped swap_all
  expand_ordinals q =
      if any (λ t. is_some (swapped t)) (tokens q)
      then joined (32 ∷ []) (swap_all (tokens q)) ∷ []
      else []
