-- ===== src/Addresses/Query.antt =====
-- shared/address.py, `parse_address_query`, from the normalised text on. The classes of characters, the
-- lower case, the search for a street's type and the keywords are those of `Lexicon`.
pub mod Postcode
pub mod Known
pub mod Placed
use geocoder_fwd.Prelude.{
  ℕ, ◌-◌, Bool, true, false, not, ◌&&◌, ◌||◌, Option, none, some, List, [], ◌∷◌, ◌++◌, ◌==◌, leb,
  if◌then◌else◌, any, map, length, take, codes,
}
use geocoder_fwd.Addresses.Texts.{
  equal, commas, parts, every, after_prefix, after_space, span, ends_with, without_end,
}
use geocoder_fwd.Addresses.{Text, is_empty, is_space, is_some, lstrip, strip}

pub record Lexicon : Type 0 where
  -- `\d` and `\w`, and two letters that are equal but for their case.
  pub is_digit : ℕ → Bool
  pub is_word : ℕ → Bool
  pub same_letter : ℕ → ℕ → Bool
  pub lower : Text → Text
  -- `_STREET_RE.search`
  pub has_street_word : Text → Bool
  pub ar_prefixes : List Text
  pub fr_prefixes : List Text
  pub ar_cities : List Text
  pub fr_cities : List Text
  pub all_cities : List Text

pub record Parsed : Type 0 where
  pub raw : Text
  pub housenumber : Option Text
  pub street : Option Text
  pub city : Option Text
  pub postcode : Option Text
  pub suburb : Option Text
  pub state : Option Text
  pub country : Option Text

abbrev pub or_default : Option Text → Text → Option Text
or_default none t = some t
or_default (some s) t = some s

-- The first part that a function takes, with what it makes of it, and the others.
abbrev pub or_later :
    {A : Type 0} → Text → List Text → Option A → Option (A × List Text) → Option (A × List Text)
or_later p ps (some a) later = some (a, ps)
or_later p ps none none = none
or_later p ps none (some (a, others)) = some (a, p ∷ others)

abbrev pub first_taken : {A : Type 0} → (Text → Option A) → List Text → Option (A × List Text)
first_taken f [] = none
first_taken f (p ∷ ps) = or_later p ps (f p) (first_taken f ps)

module _ (lex : Lexicon) where
  -- `^\d{4,6}$`
  unfoldable pub is_postcode : Text → Bool
  is_postcode p = leb 4 (length p) && leb (length p) 6 && every lex.is_digit p

  -- `^\d+(?:st|nd|rd|th)$`; the suffix is no digit.
  unfoldable pub is_ordinal : Text → Bool
  is_ordinal p =
      let (digits, suffix) = span lex.is_digit p in
      not (is_empty digits)
      && any (equal (lex.lower suffix)) (map codes ("st" ∷ "nd" ∷ "rd" ∷ "th" ∷ []))

  -- `^(\d[\w/-]*)\s+(.+)`, unless the first group is an ordinal. No character of the group is white space.
  abbrev pub house_from : Text → Option Text → Option (Text × Text)
  house_from number none = none
  house_from number (some rest) =
      if is_ordinal number then none else some (strip number, strip rest)

  unfoldable pub house : Text → Option (Text × Text)
  unfolding is_ordinal strip
  house [] = none
  house (c ∷ s) =
      let (run, rest) = span (λ d. lex.is_word d || (d == 47) || (d == 45)) s in
      if lex.is_digit c then house_from (c ∷ run) (after_space rest) else none

  -- The text after the first of the prefixes that fits, with the prefix as it stands there.
  abbrev pub street_part : (ℕ → ℕ → Bool) → List Text → Text → Option Text
  street_part same [] s = none
  street_part same (p ∷ prefixes) s =
      let rest = street_part same prefixes s in
      elim (after_prefix same p s) [
        | none ↦ rest
        | some after ↦ elim (after_space after) [
          | none ↦ rest
          | some name ↦ some (take (length p) s ++ (32 ∷ name))
        ]
      ]

  -- The first known city at the end of a street, with the street before it.
  abbrev pub city_at_end : (Text → Text) → List Text → Text → Option (Text × Text)
  city_at_end fold [] street = none
  city_at_end fold (city ∷ cities) street =
      let rest = city_at_end fold cities street in
      if ends_with (fold city) (fold street)
      then some (strip (without_end city street), city)
      else rest

  abbrev pub detect_street :
      (ℕ → ℕ → Bool) → (Text → Text) → List Text → List Text → Text → Option (Text × Text)
  detect_street same fold prefixes cities part = elim (street_part same prefixes (strip part)) [
    | none ↦ none
    | some street ↦ city_at_end fold cities street
  ]

  -- The part that gives the street in pass 3, and the city at its end.
  abbrev pub or_street :
      Text → Option (Text × Text) → Option (Text × Text) → Option (Text × Option Text)
  or_street part (some (street, city)) fr = some (street, some city)
  or_street part none (some (street, city)) = some (street, some city)
  or_street part none none = if lex.has_street_word part then some (part, none) else none

  unfoldable pub street_of : Text → Option (Text × Option Text)
  unfolding strip
  street_of part =
      or_street part (detect_street (λ c d. c == d) (λ t. t) lex.ar_prefixes lex.ar_cities part)
        (detect_street lex.same_letter lex.lower lex.fr_prefixes lex.fr_cities part)

  unfoldable pub is_city : Text → Bool
  is_city p = any (equal p) lex.all_cities || any (equal (lex.lower p)) lex.all_cities

  -- `^[A-Z]{2,3}$`
  unfoldable pub is_country : Text → Bool
  is_country p = leb 2 (length p) && leb (length p) 3 && every (λ c. leb 65 c && leb c 90) p

  -- Pass 5, for one part.
  abbrev pub free_place : Option Text → Option Text → Option Text → Text → Parsed → Parsed
  free_place none suburb state p r = record r { city = some p }
  free_place (some c) none state p r = record r { suburb = some p }
  free_place (some c) (some s) none p r = record r { state = some p }
  free_place (some c) (some s) (some t) p r = r

  unfoldable pub assign : Text → Parsed → Parsed
  unfolding is_postcode is_country is_city
  assign p r =
      if is_empty p
      then r
      else if is_postcode p
      then record r { postcode = or_default r.postcode p }
      else if is_country p
      then record r { country = or_default r.country p }
      else if is_city p
      then record r { city = or_default r.city p }
      else free_place r.city r.suburb r.state p r

  unfoldable pub assign_all : List Text → Parsed → Parsed
  unfolding assign
  assign_all [] r = r
  assign_all (p ∷ ps) r = assign_all ps (assign p r)

  -- Pass 4.
  unfoldable pub by_position : List Text → Parsed → Parsed
  unfolding assign_all is_city
  by_position [] r = r
  by_position (p ∷ []) r =
      if is_city p then record r { city = some p } else record r { street = some p }
  by_position (p ∷ p' ∷ ps) r = assign_all (p' ∷ ps) (record r { street = some p })

  abbrev pub by_street : Option ((Text × Option Text) × List Text) → List Text → Parsed → Parsed
  by_street none remaining r = by_position remaining r
  by_street (some ((street, none), others)) remaining r =
      assign_all others (record r { street = some street })
  by_street (some ((street, some city), others)) remaining r =
      assign_all others (record r { street = some street; city = or_default r.city city })

  abbrev pub by_house : Option ((Text × Text) × List Text) → List Text → Parsed → Parsed
  by_house none remaining r = by_street (first_taken street_of remaining) remaining r
  by_house (some ((number, street), others)) remaining r =
      assign_all others (record r { housenumber = some number; street = some street })

  abbrev pub first_postcode : List Text → Option Text
  first_postcode [] = none
  first_postcode (p ∷ ps) = let rest = first_postcode ps in if is_postcode p then some p else rest

  abbrev pub remaining_parts : List Text → List Text
  remaining_parts [] = []
  remaining_parts (p ∷ ps) =
      let rest = remaining_parts ps in if is_postcode p then rest else p ∷ rest

  abbrev pub with_postcode : Text → List Text → Parsed
  with_postcode q_norm ps = record {
    raw = q_norm;
    housenumber = none;
    street = none;
    city = none;
    postcode = first_postcode ps;
    suburb = none;
    state = none;
    country = none;
  }

  unfoldable pub parse_normalized : Text → Parsed
  unfolding is_postcode by_position assign_all street_of house parts
  parse_normalized q_norm =
      let remaining = remaining_parts (parts q_norm) in
      by_house (first_taken house remaining) remaining (with_postcode q_norm (parts q_norm))
