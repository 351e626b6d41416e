-- ===== src/Addresses/Query/Known.antt =====
-- shared/address.py, `parse_address_query`: what the places of a query are.
use geocoder_fwd.Prelude.{
  ℕ, ◌≡◌, refl, sym, ap, ◌∙◌, Bool, Option, none, some, List, [], ◌∷◌, Bool-cases, Option-cases,
  inl, inr, All, ◌==◌,
}
use geocoder_fwd.Addresses.{Text, is_empty, strip}
use geocoder_fwd.Addresses.Texts.{parts, ends_with, without_end}
use geocoder_fwd.Addresses.Query.{
  Lexicon, Parsed, or_default, or_later, first_taken, is_postcode, is_country, is_city, house,
  street_part, city_at_end, detect_street, or_street, street_of, free_place, assign, assign_all,
  by_position, by_street, by_house, first_postcode, remaining_parts, with_postcode,
  parse_normalized,
}
use geocoder_fwd.Addresses.Query.Postcode.{first_taken-All}

module _ (lex : Lexicon) where
  module _ (P : Text → Type 0) where
    abbrev pub Holds : Option Text → Type 0
    Holds none = Unit
    Holds (some t) = P t

    -- The five fields that pass 5 may set.
    abbrev pub IsKnown : Parsed → Type 0
    IsKnown r = Holds r.city × Holds r.suburb × Holds r.state × Holds r.country × Holds r.postcode

    default-Holds : (o : Option Text) (p : Text) → P p → Holds o → Holds (or_default o p)
    default-Holds none p good h = good
    default-Holds (some t) p good h = h

    free_place-IsKnown :
        (city suburb state : Option Text) (p : Text) (r : Parsed)
        → P p
        → IsKnown r
        → IsKnown (free_place lex city suburb state p r)
    free_place-IsKnown none suburb state p r good (c, s, t, n, z) = (good, s, t, n, z)
    free_place-IsKnown (some _) none state p r good (c, s, t, n, z) = (c, good, t, n, z)
    free_place-IsKnown (some _) (some _) none p r good (c, s, t, n, z) = (c, s, good, n, z)
    free_place-IsKnown (some _) (some _) (some _) p r good h = h

    assign-IsKnown : (p : Text) (r : Parsed) → P p → IsKnown r → IsKnown (assign lex p r)
    unfolding assign
    assign-IsKnown p r good (c, s, t, n, z) = elim (Bool-cases (is_empty p)) [
      | inl e ↦ rw e (c, s, t, n, z)
      | inr e ↦ elim (Bool-cases (is_postcode lex p)) [
        | inl d ↦ rw (e, d) (c, s, t, n, default-Holds r.postcode p good z)
        | inr d ↦ elim (Bool-cases (is_country lex p)) [
          | inl f ↦ rw (e, d, f) (c, s, t, default-Holds r.country p good n, z)
          | inr f ↦ elim (Bool-cases (is_city lex p)) [
            | inl g ↦ rw (e, d, f, g) (default-Holds r.city p good c, s, t, n, z)
            | inr g ↦
                rw (e, d, f, g)
                  (free_place-IsKnown r.city r.suburb r.state p r good (c, s, t, n, z))
          ]
        ]
      ]
    ]

    assign_all-IsKnown :
        (ps : List Text) (r : Parsed) → All P ps → IsKnown r → IsKnown (assign_all lex ps r)
    unfolding assign_all
    assign_all-IsKnown [] r all h = h
    assign_all-IsKnown (p ∷ ps) r (good, all) h =
        assign_all-IsKnown ps (assign lex p r) all (assign-IsKnown p r good h)

    by_position-IsKnown :
        (ps : List Text) (r : Parsed) → All P ps → IsKnown r → IsKnown (by_position lex ps r)
    unfolding by_position
    by_position-IsKnown [] r all h = h
    by_position-IsKnown (p ∷ []) r (good, all) (c, s, t, n, z) = elim (Bool-cases (is_city lex p)) [
      | inl e ↦ rw e (good, s, t, n, z)
      | inr e ↦ rw e (c, s, t, n, z)
    ]
    by_position-IsKnown (p ∷ p' ∷ ps) r (good, all) h =
        assign_all-IsKnown (p' ∷ ps) (record r { street = some p }) all h

    -- A city at the end of a street is a known one.
    city_at_end-Holds :
        (fold : Text → Text) (cities : List Text) (street : Text) (s c : Text)
        → All P cities
        → city_at_end lex fold cities street ≡ some (s, c)
        → P c
    city_at_end-Holds fold [] street s c all h = cc
    city_at_end-Holds fold (city ∷ cities) street s c (good, all) h =
        elim (Bool-cases (ends_with (fold city) (fold street))) [
          | inl e ↦
              let found : some (strip (without_end city street), city) ≡ some (s, c) = rw e at h in
              let eq : city ≡ c = cc in rw (sym eq) good
          | inr e ↦ city_at_end-Holds fold cities street s c all (rw e at h)
        ]

    detect_street-Holds :
        (same : ℕ → ℕ → Bool) (fold : Text → Text) (prefixes cities : List Text) (part s c : Text)
        → All P cities
        → detect_street lex same fold prefixes cities part ≡ some (s, c)
        → P c
    detect_street-Holds same fold prefixes cities part s c all h =
        elim (Option-cases (street_part lex same prefixes (strip part))) [
          | inl e ↦ let no : Option.none ≡ some (s, c) = rw (e, detect_street) at h in cc
          | inr (street, e) ↦
              let found : city_at_end lex fold cities street ≡ some (s, c) =
                rw (e, detect_street) at h in
              city_at_end-Holds fold cities street s c all found
        ]

    or_street-Holds :
        (part : Text) (ar fr : Option (Text × Text)) (street city : Text)
        → ((s c : Text) → ar ≡ some (s, c) → P c)
        → ((s c : Text) → fr ≡ some (s, c) → P c)
        → or_street lex part ar fr ≡ some (street, some city)
        → P city
    or_street-Holds part (some (s, c)) fr street city from_ar from_fr h =
        let eq : c ≡ city = cc in rw (sym eq) (from_ar s c refl)
    or_street-Holds part none (some (s, c)) street city from_ar from_fr h =
        let eq : c ≡ city = cc in rw (sym eq) (from_fr s c refl)
    or_street-Holds part none none street city from_ar from_fr h =
        elim (Bool-cases (lex.has_street_word part)) [
          | inl e ↦
              let no : some (part, none) ≡ some (street, some city) = rw (e, detect_street) at h in
              cc
          | inr e ↦
              let no : Option.none ≡ some (street, some city) = rw (e, detect_street) at h in cc
        ]

    taken :
        {A : Type 0} (f : Text → Option A) (ps : List Text) (a : A) (others : List Text)
        → first_taken f ps ≡ some (a, others)
        → (p : Text) × (f p ≡ some a)
    taken f [] a others h = cc
    taken f (p ∷ ps) a others h = elim (Option-cases (f p)) [
      | inr (b, e) ↦
          let same : some (b, ps) ≡ some (a, others) = rw (e, or_later) at h in
          let eq : b ≡ a = cc in (p, e ∙ ap some eq)
      | inl e ↦ elim (Option-cases (first_taken f ps)) [
        | inl g ↦ let no : Option.none ≡ some (a, others) = rw (e, or_later) at (rw g at h) in cc
        | inr ((b, rest), g) ↦
            let same : some (b, p ∷ rest) ≡ some (a, others) = rw (e, or_later) at (rw g at h) in
            let eq : b ≡ a = cc in let (q, found) = taken f ps b rest g in (q, found ∙ ap some eq)
      ]
    ]

    first_postcode-Holds : (ps : List Text) → All P ps → Holds (first_postcode lex ps)
    first_postcode-Holds [] all = tt
    first_postcode-Holds (p ∷ ps) (good, all) = elim (Bool-cases (is_postcode lex p)) [
      | inl e ↦ rw (e, Holds) good
      | inr e ↦ rw (e, Holds) (first_postcode-Holds ps all)
    ]

    remaining_parts-Holds : (ps : List Text) → All P ps → All P (remaining_parts lex ps)
    remaining_parts-Holds [] all = tt
    remaining_parts-Holds (p ∷ ps) (good, all) = elim (Bool-cases (is_postcode lex p)) [
      | inl e ↦ rw e (remaining_parts-Holds ps all)
      | inr e ↦ rw (e, All) (good, remaining_parts-Holds ps all)
    ]

    module _ (ar : All P lex.ar_cities) (fr : All P lex.fr_cities) where
      street_of-Holds :
          (part street city : Text) → street_of lex part ≡ some (street, some city) → P city
      unfolding street_of
      street_of-Holds part street city h =
          or_street-Holds part _ _ street city
            (λ s c e.
              detect_street-Holds (λ c d. c == d) (λ t. t) lex.ar_prefixes lex.ar_cities part s c ar
                e)
            (λ s c e.
              detect_street-Holds lex.same_letter lex.lower lex.fr_prefixes lex.fr_cities part s c
                fr e)
            h

      by_street-IsKnown :
          (found : Option ((Text × Option Text) × List Text)) (ps : List Text) (r : Parsed)
          → All P ps
          → first_taken (street_of lex) ps ≡ found
          → IsKnown r
          → IsKnown (by_street lex found ps r)
      by_street-IsKnown none ps r all e h = by_position-IsKnown ps r all h
      by_street-IsKnown (some ((street, none), others)) ps r all e h =
          assign_all-IsKnown others (record r { street = some street })
            (first_taken-All P (street_of lex) ps (street, none) others all e) h
      by_street-IsKnown (some ((street, some city), others)) ps r all e (c, s, t, n, z) =
          let (p, found) = taken (street_of lex) ps (street, some city) others e in
          assign_all-IsKnown others
            (record r { street = some street; city = or_default r.city city })
            (first_taken-All P (street_of lex) ps (street, some city) others all e)
            (default-Holds r.city city (street_of-Holds p street city found) c, s, t, n, z)

      by_house-IsKnown :
          (found : Option ((Text × Text) × List Text)) (ps : List Text) (r : Parsed)
          → All P ps
          → first_taken (house lex) ps ≡ found
          → IsKnown r
          → IsKnown (by_house lex found ps r)
      by_house-IsKnown none ps r all e h =
          by_street-IsKnown (first_taken (street_of lex) ps) ps r all refl h
      by_house-IsKnown (some ((number, street), others)) ps r all e h =
          assign_all-IsKnown others (record r { housenumber = some number; street = some street })
            (first_taken-All P (house lex) ps (number, street) others all e) h

      -- What holds of each part of a query and of each known city holds of the city, suburb, state, country and
      -- postcode that the query is given: none of them is put together from pieces.
      pub parse_normalized-IsKnown :
          (q_norm : Text) → All P (parts q_norm) → IsKnown (parse_normalized lex q_norm)
      unfolding parse_normalized
      parse_normalized-IsKnown q_norm all =
          let remaining = remaining_parts lex (parts q_norm) in
          by_house-IsKnown (first_taken (house lex) remaining) remaining
            (with_postcode lex q_norm (parts q_norm)) (remaining_parts-Holds (parts q_norm) all)
            refl (tt, tt, tt, tt, first_postcode-Holds (parts q_norm) all)
