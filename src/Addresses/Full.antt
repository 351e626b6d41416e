-- ===== src/Addresses/Full.antt =====
-- shared/address.py: when the full address is empty.
use geocoder_fwd.Prelude.{
  ◌≡◌, ◌↔◌, refl, sym, ap, ◌∙◌, Bool, true, false, not, ◌||◌, List, [], ◌∷◌, ◌++◌, String, str_eq,
  eq_iff, Dict, lookup, if◌then◌else◌, Bool-cases, inl, inr, any, codes, contains, All, All-append,
  arith,
}
use geocoder_fwd.Addresses.{
  Text, Tags, is_empty, strip, tag, addr_field_map, city_fallbacks, fields_of, city_fallback,
  is_some, extract_address_components, part_if, street_line, listed, parts_of, joined,
  build_full_address,
}

abbrev visible : Text → Bool
visible t = not (is_empty t)

any-append :
    {A : Type 0} (p : A → Bool) (xs ys : List A) → any p (xs ++ ys) ≡ (any p xs || any p ys)
any-append p [] ys = refl
any-append p (x ∷ xs) ys = elim (Bool-cases (p x)) [
  | inl e ↦ rw e refl
  | inr e ↦ rw e (any-append p xs ys)
]

append-visible : (s t : Text) → visible t ≡ true → visible (s ++ t) ≡ true
append-visible [] t h = h
append-visible (c ∷ s) t h = refl

part_if-visible : (label val : Text) → any visible (part_if label val) ≡ visible val
part_if-visible label [] = refl
part_if-visible label (c ∷ val) = rw (append-visible label (c ∷ val) refl) refl

street_line-visible :
    (h s p : Text) → any visible (street_line h s p) ≡ (visible h || (visible s || visible p))
street_line-visible [] [] [] = refl
street_line-visible [] [] (c ∷ p) = refl
street_line-visible [] (c ∷ s) p = refl
street_line-visible (c ∷ h) [] p = refl
street_line-visible (c ∷ h) (d ∷ s) p = refl

listed-visible :
    (fields : List String) (addr : Dict Text)
    → any visible (listed fields addr) ≡ any (λ f. visible (tag f addr)) fields
listed-visible [] addr = refl
listed-visible (f ∷ fields) addr =
    any-append visible (part_if [] (tag f addr)) (listed fields addr)
    ∙ ap (λ b. b || any visible (listed fields addr)) (part_if-visible [] (tag f addr))
    ∙ ap (λ b. visible (tag f addr) || b) (listed-visible fields addr)

-- The names of the fields, in the order of the text.
abbrev names : List String
names =
    "unit" ∷ "floor" ∷ "housenumber" ∷ "street" ∷ "place" ∷ "suburb" ∷ "district" ∷ "city"
    ∷ "postcode" ∷ "state" ∷ "country" ∷ []

or_assoc : (h s p r : Bool) → ((h || (s || p)) || r) ≡ (h || (s || (p || r)))
or_assoc true s p r = refl
or_assoc false true p r = refl
or_assoc false false p r = refl

parts_of-visible :
    (addr : Dict Text) → any visible (parts_of addr) ≡ any (λ f. visible (tag f addr)) names
unfolding parts_of
parts_of-visible addr =
    let locality = "suburb" ∷ "district" ∷ "city" ∷ "postcode" ∷ "state" ∷ "country" ∷ [] in
    let h = visible (tag "housenumber" addr) in
    let s = visible (tag "street" addr) in
    let p = visible (tag "place" addr) in
    let rest : Bool = any (λ f. visible (tag f addr)) locality in
    rw (any-append visible (part_if (codes "Unit ") (tag "unit" addr)) _) (
      rw (any-append visible (part_if (codes "Floor ") (tag "floor" addr)) _) (
        rw
          (any-append visible
            (street_line (tag "housenumber" addr) (tag "street" addr) (tag "place" addr)) _)
          (rw (part_if-visible (codes "Unit ") (tag "unit" addr)) (
            rw (part_if-visible (codes "Floor ") (tag "floor" addr)) (
              rw
                (street_line-visible (tag "housenumber" addr) (tag "street" addr)
                  (tag "place" addr))
                (rw (listed-visible locality addr) (
                  ap (λ b. visible (tag "unit" addr) || (visible (tag "floor" addr) || b))
                    (or_assoc h s p rest))))))))

joined-visible :
    (sep : Text) (parts : List Text) → any visible parts ≡ true → visible (joined sep parts) ≡ true
joined-visible sep [] h = cc
joined-visible sep ([] ∷ []) h = h
joined-visible sep ((c ∷ p) ∷ []) h = refl
joined-visible sep ((c ∷ p) ∷ q ∷ parts) h = refl
joined-visible sep ([] ∷ q ∷ parts) h =
    append-visible sep (joined sep (q ∷ parts)) (joined-visible sep (q ∷ parts) h)

-- An entry of the components: a known name, and a text that is not empty.
abbrev IsEntry : String × Text → Type 0
IsEntry e = (contains e.0 names ≡ true) × (visible e.1 ≡ true)

fields_of-IsEntry :
    (fields : List (String × String)) (tags : Tags)
    → All (λ (f : String × String). contains f.0 names ≡ true) fields
    → All IsEntry (fields_of fields tags)
unfolding fields_of
fields_of-IsEntry [] tags all = tt
fields_of-IsEntry ((f, key) ∷ fields) tags (known, all) =
    elim (Bool-cases (is_empty (strip (tag key tags)))) [
      | inl e ↦ rw e (fields_of-IsEntry fields tags all)
      | inr e ↦ rw e ((known, ap not e), fields_of-IsEntry fields tags all)
    ]

city_fallback-IsEntry : (keys : List String) (tags : Tags) → All IsEntry (city_fallback keys tags)
unfolding city_fallback
city_fallback-IsEntry [] tags = tt
city_fallback-IsEntry (key ∷ keys) tags = elim (Bool-cases (is_empty (strip (tag key tags)))) [
  | inl e ↦ rw e (city_fallback-IsEntry keys tags)
  | inr e ↦ rw e ((refl, ap not e), tt)
]

extract-IsEntry : (tags : Tags) → All IsEntry (extract_address_components tags)
unfolding extract_address_components
extract-IsEntry tags =
    let known : All (λ (f : String × String). contains f.0 names ≡ true) addr_field_map =
      (refl, (refl, (refl, (refl, (refl, (refl, (refl, (refl, (refl, (refl, (refl, tt))))))))))) in
    let all = fields_of-IsEntry addr_field_map tags known in
    elim (Bool-cases (is_some (lookup "city" (fields_of addr_field_map tags)))) [
      | inl e ↦ rw e all
      | inr e ↦ rw e (
          All-append IsEntry (fields_of addr_field_map tags) _ all
            (city_fallback-IsEntry city_fallbacks tags))
    ]

any-contains :
    (p : String → Bool) (f : String) (fs : List String)
    → contains f fs ≡ true
    → p f ≡ true
    → any p fs ≡ true
any-contains p f [] there h = cc
any-contains p f (g ∷ fs) there h = elim (Bool-cases (str_eq g f)) [
  | inl e ↦ let same : g ≡ f = ground (arith, eq_iff g f, e) in rw (ap p same ∙ h) refl
  | inr e ↦
      let rest : any p fs ≡ true = any-contains p f fs (rw e at there) h in
      elim (Bool-cases (p g)) [ inl k ↦ rw k refl | inr k ↦ rw k rest ]
]

entries-visible :
    (addr : Dict Text)
    → All IsEntry addr
    → is_empty addr ≡ false
    → any (λ f. visible (tag f addr)) names ≡ true
unfolding tag lookup
entries-visible [] all h = cc
entries-visible ((f, val) ∷ addr) ((known, seen), all) h =
    let own : str_eq f f ≡ true = ground (arith, eq_iff f f) in
    any-contains (λ g. visible (tag g ((f, val) ∷ addr))) f names known (rw own seen)

is_empty→[] : {A : Type 0} (xs : List A) → is_empty xs ≡ true → xs ≡ []
is_empty→[] [] h = refl
is_empty→[] (x ∷ xs) h = cc

-- The text of a dict of components, as `build_full_address` ends.
text-visible :
    (addr : Dict Text)
    → All IsEntry addr
    → is_empty addr ≡ false
    → visible (if is_empty addr then [] else joined (codes ", ") (parts_of addr)) ≡ true
text-visible addr all some_field = rw some_field (
    joined-visible (codes ", ") (parts_of addr)
      (parts_of-visible addr ∙ entries-visible addr all some_field))

-- The full address of some tags is empty exactly if they have no component of an address.
pub build_full_address-extract_address_components :
    (tags : Tags) → (build_full_address tags ≡ []) ↔ (extract_address_components tags ≡ [])
unfolding build_full_address
build_full_address-extract_address_components tags =
    let addr = extract_address_components tags in
    (
      (λ h. elim (Bool-cases (is_empty addr)) [
        | inl e ↦ is_empty→[] addr e
        | inr e ↦
            let no : false ≡ true =
              ap visible (sym h) ∙ text-visible addr (extract-IsEntry tags) e in
            cc
      ]),
      (λ h. rw h refl),
    )
