-- ===== src/Addresses/Query/Placed.antt =====
-- shared/address.py, `parse_address_query`: the street or the city.
use geocoder_fwd.Prelude.{
  ◌≡◌, refl, ap, ◌∙◌, Bool, true, false, ◌||◌, Option, none, some, List, [], ◌∷◌, Bool-cases, inl,
  inr,
}
use geocoder_fwd.Addresses.{Text, is_empty, is_some}
use geocoder_fwd.Addresses.Texts.{parts}
use geocoder_fwd.Addresses.Query.{
  Lexicon, Parsed, or_default, first_taken, is_postcode, is_country, is_city, house, street_of,
  free_place, assign, assign_all, by_position, by_street, by_house, remaining_parts, with_postcode,
  parse_normalized,
}

module _ (lex : Lexicon) where
  abbrev pub IsPlaced : Parsed → Type 0
  IsPlaced r = (is_some r.street || is_some r.city) ≡ true

  or_true : (b : Bool) → (b || true) ≡ true
  or_true true = refl
  or_true false = refl

  default-IsSome : (o : Option Text) (p : Text) → is_some (or_default o p) ≡ true
  default-IsSome none p = refl
  default-IsSome (some t) p = refl

  free_place-IsPlaced :
      (city suburb state : Option Text) (p : Text) (r : Parsed)
      → IsPlaced r
      → IsPlaced (free_place lex city suburb state p r)
  free_place-IsPlaced none suburb state p r h = or_true (is_some r.street)
  free_place-IsPlaced (some c) none state p r h = h
  free_place-IsPlaced (some c) (some s) none p r h = h
  free_place-IsPlaced (some c) (some s) (some t) p r h = h

  assign-IsPlaced : (p : Text) (r : Parsed) → IsPlaced r → IsPlaced (assign lex p r)
  unfolding assign
  assign-IsPlaced p r h = elim (Bool-cases (is_empty p)) [
    | inl e ↦ rw e h
    | inr e ↦ elim (Bool-cases (is_postcode lex p)) [
      | inl d ↦ rw (e, d) h
      | inr d ↦ elim (Bool-cases (is_country lex p)) [
        | inl f ↦ rw (e, d, f) h
        | inr f ↦ elim (Bool-cases (is_city lex p)) [
          | inl g ↦
              rw (e, d, f, g)
                (ap (λ b. is_some r.street || b) (default-IsSome r.city p)
                  ∙ or_true (is_some r.street))
          | inr g ↦ rw (e, d, f, g) (free_place-IsPlaced r.city r.suburb r.state p r h)
        ]
      ]
    ]
  ]

  assign_all-IsPlaced : (ps : List Text) (r : Parsed) → IsPlaced r → IsPlaced (assign_all lex ps r)
  unfolding assign_all
  assign_all-IsPlaced [] r h = h
  assign_all-IsPlaced (p ∷ ps) r h = assign_all-IsPlaced ps (assign lex p r) (assign-IsPlaced p r h)

  by_position-IsPlaced :
      (ps : List Text) (r : Parsed) → is_empty ps ≡ false → IsPlaced (by_position lex ps r)
  unfolding by_position
  by_position-IsPlaced [] r h = cc
  by_position-IsPlaced (p ∷ []) r h = elim (Bool-cases (is_city lex p)) [
    | inl e ↦ rw e (or_true (is_some r.street))
    | inr e ↦ rw e refl
  ]
  by_position-IsPlaced (p ∷ p' ∷ ps) r h =
      assign_all-IsPlaced (p' ∷ ps) (record r { street = some p }) refl

  by_street-IsPlaced :
      (found : Option ((Text × Option Text) × List Text)) (ps : List Text) (r : Parsed)
      → is_empty ps ≡ false
      → IsPlaced (by_street lex found ps r)
  by_street-IsPlaced none ps r h = by_position-IsPlaced ps r h
  by_street-IsPlaced (some ((street, none), others)) ps r h =
      assign_all-IsPlaced others (record r { street = some street }) refl
  by_street-IsPlaced (some ((street, some city), others)) ps r h =
      assign_all-IsPlaced others (record r { street = some street; city = or_default r.city city })
        refl

  by_house-IsPlaced :
      (found : Option ((Text × Text) × List Text)) (ps : List Text) (r : Parsed)
      → is_empty ps ≡ false
      → IsPlaced (by_house lex found ps r)
  by_house-IsPlaced none ps r h = by_street-IsPlaced (first_taken (street_of lex) ps) ps r h
  by_house-IsPlaced (some ((number, street), others)) ps r h =
      assign_all-IsPlaced others (record r { housenumber = some number; street = some street }) refl

  -- A query with a part that is no postcode, an empty one included, gets a street or a city.
  parse_normalized-IsPlaced :
      (q_norm : Text)
      → is_empty (remaining_parts lex (parts q_norm)) ≡ false
      → IsPlaced (parse_normalized lex q_norm)
  unfolding parse_normalized
  parse_normalized-IsPlaced q_norm h =
      let remaining = remaining_parts lex (parts q_norm) in
      by_house-IsPlaced (first_taken (house lex) remaining) remaining
        (with_postcode lex q_norm (parts q_norm)) h
