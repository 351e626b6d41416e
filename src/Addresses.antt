-- ===== src/Addresses.antt =====
-- shared/address.py: the components of an address in OSM's tags, and its text. A text is the list of its
-- code points.
pub mod Texts
pub mod Full
pub mod Contained
pub mod Ordinals
pub mod Query
mod Tests
use geocoder_fwd.Prelude.{
  ℕ, Bool, true, false, not, ◌&&◌, ◌||◌, Option, none, some, List, [], ◌∷◌, ◌++◌, String, str_eq,
  Dict, lookup, get_or, ◌==◌, leb, if◌then◌else◌, any, map, codes, contains,
}

abbrev pub Text : Type 0
Text = List ℕ

abbrev pub is_empty : {A : Type 0} → List A → Bool
is_empty [] = true
is_empty (c ∷ t) = false

-- What `str.strip` and `\s` take for white space.
abbrev pub is_space : ℕ → Bool
is_space c =
    leb 9 c && leb c 13
    || leb 28 c && leb c 32
    || (c == 133)
    || (c == 160)
    || (c == 5760)
    || leb 8192 c && leb c 8202
    || (c == 8232)
    || (c == 8233)
    || (c == 8239)
    || (c == 8287)
    || (c == 12288)

abbrev pub lstrip : Text → Text
lstrip [] = []
lstrip (c ∷ t) = let rest = lstrip t in if is_space c then rest else c ∷ t

-- A character at the end stays if it, or one after it, is no white space.
abbrev pub rstrip : Text → Text
rstrip [] = []
rstrip (c ∷ t) = let rest = rstrip t in if is_empty rest && is_space c then [] else c ∷ rest

unfoldable pub strip : Text → Text
strip t = rstrip (lstrip t)

abbrev pub Tags : Type 0
Tags = Dict Text

-- `tags.get(key, "")`
unfoldable pub tag : String → Tags → Text
unfolding lookup
tag key tags = get_or [] (lookup key tags)

-- ADDR_FIELD_MAP
abbrev pub addr_field_map : List (String × String)
addr_field_map =
    ("housenumber", "addr:housenumber")
    ∷ ("street", "addr:street")
    ∷ ("suburb", "addr:suburb")
    ∷ ("district", "addr:district")
    ∷ ("city", "addr:city")
    ∷ ("postcode", "addr:postcode")
    ∷ ("state", "addr:state")
    ∷ ("country", "addr:country")
    ∷ ("place", "addr:place")
    ∷ ("unit", "addr:unit")
    ∷ ("floor", "addr:floor")
    ∷ []

abbrev pub city_fallbacks : List String
city_fallbacks = "addr:town" ∷ "addr:village" ∷ "addr:hamlet" ∷ []

unfoldable pub has_address : Tags → Bool
unfolding tag
has_address tags = any (λ (f : String × String). not (is_empty (tag f.1 tags))) addr_field_map

-- The fields of the map that the tags have.
unfoldable pub fields_of : List (String × String) → Tags → Dict Text
unfolding strip tag
fields_of [] tags = []
fields_of ((field, key) ∷ fields) tags =
    let rest = fields_of fields tags in
    let val = strip (tag key tags) in if is_empty val then rest else (field, val) ∷ rest

-- The first of the other places for a city that is not empty.
unfoldable pub city_fallback : List String → Tags → Dict Text
unfolding strip tag
city_fallback [] tags = []
city_fallback (key ∷ keys) tags =
    let rest = city_fallback keys tags in
    let val = strip (tag key tags) in if is_empty val then rest else ("city", val) ∷ []

abbrev pub is_some : {A : Type 0} → Option A → Bool
is_some none = false
is_some (some a) = true

unfoldable pub extract_address_components : Tags → Dict Text
unfolding fields_of city_fallback lookup
extract_address_components tags =
    let result = fields_of addr_field_map tags in
    if is_some (lookup "city" result) then result else result ++ city_fallback city_fallbacks tags

-- `if addr.get(field): parts.append(...)`
abbrev pub part_if : Text → Text → List Text
part_if label val = if is_empty val then [] else (label ++ val) ∷ []

abbrev pub street_line : Text → Text → Text → List Text
street_line housenumber street place =
    if not (is_empty housenumber) && not (is_empty street)
    then (housenumber ++ (32 ∷ street)) ∷ []
    else if not (is_empty housenumber)
    then housenumber ∷ []
    else if not (is_empty street)
    then street ∷ []
    else if not (is_empty place)
    then place ∷ []
    else []

abbrev pub listed : List String → Dict Text → List Text
listed [] addr = []
listed (field ∷ fields) addr = part_if [] (tag field addr) ++ listed fields addr

unfoldable pub parts_of : Dict Text → List Text
unfolding tag
parts_of addr =
    part_if (codes "Unit ") (tag "unit" addr)
    ++ (part_if (codes "Floor ") (tag "floor" addr)
        ++ (street_line (tag "housenumber" addr) (tag "street" addr) (tag "place" addr)
            ++ listed ("suburb" ∷ "district" ∷ "city" ∷ "postcode" ∷ "state" ∷ "country" ∷ [])
                addr))

-- `", ".join(parts)`
abbrev pub joined : Text → List Text → Text
joined sep [] = []
joined sep (p ∷ []) = p
joined sep (p ∷ q ∷ parts) = p ++ (sep ++ joined sep (q ∷ parts))

unfoldable pub build_full_address : Tags → Text
unfolding extract_address_components parts_of
build_full_address tags =
    let addr = extract_address_components tags in
    if is_empty addr then [] else joined (codes ", ") (parts_of addr)
