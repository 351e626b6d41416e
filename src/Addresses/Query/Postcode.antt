-- ===== src/Addresses/Query/Postcode.antt =====
-- shared/address.py, `parse_address_query`: the postcode.
use geocoder_fwd.Prelude.{
  ◌≡◌, sym, false, Option, none, some, List, [], ◌∷◌, Bool-cases, Option-cases, inl, inr, All,
}
use geocoder_fwd.Addresses.{Text}
use geocoder_fwd.Addresses.Query.{Lexicon, or_later, first_taken, is_postcode, remaining_parts}

-- What is left of some parts when one is taken out keeps a property of all.
pub first_taken-All :
    {A : Type 0} (P : Text → Type 0) (f : Text → Option A) (ps : List Text) (a : A)
    (others : List Text)
    → All P ps
    → first_taken f ps ≡ some (a, others)
    → All P others
first_taken-All P f [] a others all h = cc
first_taken-All P f (p ∷ ps) a others (good, all) h = elim (Option-cases (f p)) [
  | inr (b, e) ↦
      let same : some (b, ps) ≡ some (a, others) = rw (e, or_later) at h in
      let eq : ps ≡ others = cc in rw (sym eq) all
  | inl e ↦ elim (Option-cases (first_taken f ps)) [
    | inl g ↦ let no : Option.none ≡ some (a, others) = rw (e, or_later) at (rw g at h) in cc
    | inr ((b, rest), g) ↦
        let same : some (b, p ∷ rest) ≡ some (a, others) = rw (e, or_later) at (rw g at h) in
        let eq : p ∷ rest ≡ others = cc in rw (sym eq) (good, first_taken-All P f ps b rest all g)
  ]
]

module _ (lex : Lexicon) where
  -- Pass 1 leaves no postcode.
  abbrev pub IsOther : Text → Type 0
  IsOther p = is_postcode lex p ≡ false

  pub remaining_parts-IsOther : (ps : List Text) → All IsOther (remaining_parts lex ps)
  remaining_parts-IsOther [] = tt
  remaining_parts-IsOther (p ∷ ps) = elim (Bool-cases (is_postcode lex p)) [
    | inl e ↦ rw e (remaining_parts-IsOther ps)
    | inr e ↦ rw (e, All) (e, remaining_parts-IsOther ps)
  ]
