-- ===== src/Addresses/Contained.antt =====
-- shared/address.py: which components the full address has.
use geocoder_fwd.Prelude.{
  ◌≡◌, ◌⊎◌, ◌↔◌, refl, sym, ap, ◌∙◌, false, List, [], ◌∷◌, ◌++◌, String, Dict, lookup,
  if◌then◌else◌, codes, All, All-map, inl, inr,
}
use mathlib.Core.List.{append_assoc, append-nil}
use mathlib.Core.Path.{subst}
use geocoder_fwd.Addresses.Full.{build_full_address-extract_address_components}
use geocoder_fwd.Addresses.{
  Text, Tags, is_empty, tag, extract_address_components, part_if, street_line, listed, parts_of,
  joined, build_full_address,
}

-- A text stands within another.
abbrev pub IsIn : Text → Text → Type 0
IsIn t text = (before : Text) × (after : Text) × (text ≡ before ++ (t ++ after))

nil-IsIn : (t text : Text) → t ≡ [] → IsIn t text
nil-IsIn t text h = rw h ([], text, refl)

self-IsIn : (t : Text) → IsIn t t
self-IsIn t = ([], [], sym (append-nil t))

left-IsIn : (t a b : Text) → IsIn t a → IsIn t (a ++ b)
left-IsIn t a b (before, after, h) = (
  before,
  after ++ b,
  ap (λ x. x ++ b) h
      ∙ append_assoc before (t ++ after) b
      ∙ ap (λ x. before ++ x) (append_assoc t after b),
)

right-IsIn : (t a b : Text) → IsIn t b → IsIn t (a ++ b)
right-IsIn t a b (before, after, h) =
    (a ++ before, after, ap (λ x. a ++ x) h ∙ sym (append_assoc a before (t ++ after)))

-- A text stands within one of the parts, or is empty.
abbrev IsInOne : Text → List Text → Type 0
IsInOne t [] = t ≡ []
IsInOne t (p ∷ parts) = IsIn t p ⊎ IsInOne t parts

nil-IsInOne : (t : Text) (parts : List Text) → t ≡ [] → IsInOne t parts
nil-IsInOne t [] h = h
nil-IsInOne t (p ∷ parts) h = inr (nil-IsInOne t parts h)

left-IsInOne : (t : Text) (xs ys : List Text) → IsInOne t xs → IsInOne t (xs ++ ys)
left-IsInOne t [] ys h = nil-IsInOne t ys h
left-IsInOne t (x ∷ xs) ys (inl h) = inl h
left-IsInOne t (x ∷ xs) ys (inr h) = inr (left-IsInOne t xs ys h)

right-IsInOne : (t : Text) (xs ys : List Text) → IsInOne t ys → IsInOne t (xs ++ ys)
right-IsInOne t [] ys h = h
right-IsInOne t (x ∷ xs) ys h = inr (right-IsInOne t xs ys h)

joined-IsIn : (sep t : Text) (parts : List Text) → IsInOne t parts → IsIn t (joined sep parts)
joined-IsIn sep t [] h = nil-IsIn t [] h
joined-IsIn sep t (p ∷ []) (inl h) = h
joined-IsIn sep t (p ∷ []) (inr h) = nil-IsIn t p h
joined-IsIn sep t (p ∷ q ∷ parts) (inl h) = left-IsIn t p (sep ++ joined sep (q ∷ parts)) h
joined-IsIn sep t (p ∷ q ∷ parts) (inr h) =
    let rest = joined sep (q ∷ parts) in
    right-IsIn t p (sep ++ rest) (right-IsIn t sep rest (joined-IsIn sep t (q ∷ parts) h))

part_if-IsInOne : (label val : Text) → IsInOne val (part_if label val)
part_if-IsInOne label [] = refl
part_if-IsInOne label (c ∷ val) = inl (right-IsIn (c ∷ val) label (c ∷ val) (self-IsIn (c ∷ val)))

house-IsInOne : (h s p : Text) → IsInOne h (street_line h s p)
house-IsInOne [] s p = nil-IsInOne [] (street_line [] s p) refl
house-IsInOne (c ∷ h) [] p = inl (self-IsIn (c ∷ h))
house-IsInOne (c ∷ h) (d ∷ s) p = inl (left-IsIn (c ∷ h) (c ∷ h) (32 ∷ d ∷ s) (self-IsIn (c ∷ h)))

street-IsInOne : (h s p : Text) → IsInOne s (street_line h s p)
street-IsInOne h [] p = nil-IsInOne [] (street_line h [] p) refl
street-IsInOne [] (d ∷ s) p = inl (self-IsIn (d ∷ s))
street-IsInOne (c ∷ h) (d ∷ s) p = inl (
    right-IsIn (d ∷ s) (c ∷ h) (32 ∷ d ∷ s)
      (right-IsIn (d ∷ s) (32 ∷ []) (d ∷ s) (self-IsIn (d ∷ s))))

-- The place is left out beside a house number or a street.
place-IsInOne :
    (h s p : Text) → (is_empty h ≡ false) ⊎ ((is_empty s ≡ false) ⊎ IsInOne p (street_line h s p))
place-IsInOne (c ∷ h) s p = inl refl
place-IsInOne [] (d ∷ s) p = inr (inl refl)
place-IsInOne [] [] [] = inr (inr refl)
place-IsInOne [] [] (c ∷ p) = inr (inr (inl (self-IsIn (c ∷ p))))

listed-IsInOne :
    (names : List String) (addr : Dict Text)
    → All (λ (f : String). IsInOne (tag f addr) (listed names addr)) names
listed-IsInOne [] addr = tt
listed-IsInOne (f ∷ names) addr =
    let here = part_if [] (tag f addr) in
    (
      left-IsInOne (tag f addr) here (listed names addr) (part_if-IsInOne [] (tag f addr)),
      All-map (λ (g : String). IsInOne (tag g addr) (listed names addr))
          (λ (g : String). IsInOne (tag g addr) (here ++ listed names addr))
          (λ g h. right-IsInOne (tag g addr) here (listed names addr) h) names
          (listed-IsInOne names addr),
    )

abbrev localities : List String
localities = "suburb" ∷ "district" ∷ "city" ∷ "postcode" ∷ "state" ∷ "country" ∷ []

abbrev fields : List String
fields = "unit" ∷ "floor" ∷ "housenumber" ∷ "street" ∷ localities

-- Every field but the place stands in the text, and the place where there is neither a house number
-- nor a street.
abbrev pub IsContained : (Text → Type 0) → Dict Text → Type 0
IsContained P addr =
    All (λ (f : String). P (tag f addr)) fields
    × ((is_empty (tag "housenumber" addr) ≡ false)
        ⊎ ((is_empty (tag "street" addr) ≡ false) ⊎ P (tag "place" addr)))

parts_of-IsContained : (addr : Dict Text) → IsContained (λ t. IsInOne t (parts_of addr)) addr
unfolding parts_of
parts_of-IsContained addr =
    let unit = part_if (codes "Unit ") (tag "unit" addr) in
    let level = part_if (codes "Floor ") (tag "floor" addr) in
    let h = tag "housenumber" addr in
    let s = tag "street" addr in
    let p = tag "place" addr in
    let line = street_line h s p in
    let rest = listed localities addr in
    let in_tail : (t : Text)
        → IsInOne t (line ++ rest)
        → IsInOne t (unit ++ (level ++ (line ++ rest))) =
      λ t there.
        right-IsInOne t unit (level ++ (line ++ rest))
          (right-IsInOne t level (line ++ rest) there) in
    let in_line : (t : Text) → IsInOne t line → IsInOne t (unit ++ (level ++ (line ++ rest))) =
      λ t there. in_tail t (left-IsInOne t line rest there) in
    (
      (
        left-IsInOne (tag "unit" addr) unit (level ++ (line ++ rest))
            (part_if-IsInOne (codes "Unit ") (tag "unit" addr)),
        (
          right-IsInOne (tag "floor" addr) unit (level ++ (line ++ rest)) (
              left-IsInOne (tag "floor" addr) level (line ++ rest)
                (part_if-IsInOne (codes "Floor ") (tag "floor" addr))),
          (
            in_line h (house-IsInOne h s p),
            (
              in_line s (street-IsInOne h s p),
              All-map (λ (f : String). IsInOne (tag f addr) rest)
                  (λ (f : String). IsInOne (tag f addr) (unit ++ (level ++ (line ++ rest))))
                  (λ f there. in_tail (tag f addr) (right-IsInOne (tag f addr) line rest there))
                  localities (listed-IsInOne localities addr),
            ),
          ),
        ),
      ),
      elim (place-IsInOne h s p) [
        | inl some_house ↦ inl some_house
        | inr there ↦
            inr
              (elim there [ inl some_street ↦ inl some_street | inr place ↦ inr (in_line p place) ])
      ],
    )

joined-IsContained :
    (addr : Dict Text) → IsContained (λ t. IsIn t (joined (codes ", ") (parts_of addr))) addr
joined-IsContained addr =
    let (all, place) = parts_of-IsContained addr in
    let up : (t : Text) → IsInOne t (parts_of addr) → IsIn t (joined (codes ", ") (parts_of addr)) =
      λ t. joined-IsIn (codes ", ") t (parts_of addr) in
    (
      All-map (λ (f : String). IsInOne (tag f addr) (parts_of addr))
          (λ (f : String). IsIn (tag f addr) (joined (codes ", ") (parts_of addr)))
          (λ f. up (tag f addr)) fields all,
      elim place [
        | inl some_house ↦ inl some_house
        | inr there ↦ inr (elim there [
          | inl some_street ↦ inl some_street
          | inr h ↦ inr (up (tag "place" addr) h)
        ])
      ],
    )

text_joined :
    (addr : Dict Text)
    → (if is_empty addr then [] else joined (codes ", ") (parts_of addr))
      ≡ joined (codes ", ") (parts_of addr)
unfolding parts_of tag lookup
text_joined [] = refl
text_joined (e ∷ addr) = refl

-- The full address of some tags is empty exactly if they have no component of an address. Every component
-- but the place stands in it, and the place does where there is neither a house number nor a street.
pub build_full_address-IsContained :
    (tags : Tags)
    → ((build_full_address tags ≡ []) ↔ (extract_address_components tags ≡ []))
      × IsContained (λ t. IsIn t (build_full_address tags)) (extract_address_components tags)
unfolding build_full_address
build_full_address-IsContained tags =
    let addr = extract_address_components tags in
    (
      build_full_address-extract_address_components tags,
      subst (λ text. IsContained (λ t. IsIn t text) addr) (sym (text_joined addr))
          (joined-IsContained addr),
    )
