-- ===== src/Categories/Classify.antt =====
-- shared/categories.py: the derived lookup of groups and `classify`.
pub mod Laws
pub mod Groups
use geocoder_fwd.Prelude.{
  ℕ, Bool, true, false, not, ◌&&◌, ◌||◌, Option, none, some, List, [], ◌∷◌, String, Dict, lookup,
  str_eq, ◌==◌, if◌then◌else◌,
}
use geocoder_fwd.Prelude.Int.{ℤ, pos, negsuc}
use geocoder_fwd.Categories.Taxonomy.{
  category_keys, group_defs, group_by_key, group_place, group_boundary,
}

-- A dict whose keys are pairs of texts.
abbrev pub PairDict : Type 0
PairDict = List ((String × String) × String)

unfoldable pub pair_eq : String × String → String × String → Bool
pair_eq (a, b) (c, d) = str_eq a c && str_eq b d

unfoldable pub pair_lookup : String × String → PairDict → Option String
pair_lookup k [] = none
pair_lookup k ((j, group) ∷ d) = if pair_eq j k then some group else pair_lookup k d

unfoldable pub pair_insert : String × String → String → PairDict → PairDict
pair_insert k group [] = (k, group) ∷ []
pair_insert k group ((j, old) ∷ d) =
    let rest = pair_insert k group d in if pair_eq j k then (j, group) ∷ d else (j, old) ∷ rest

-- The three nested `for`s of the comprehension, into the dict built so far.
unfoldable pub add_values : String → String → List String → PairDict → PairDict
unfolding pair_insert
add_values group key [] d = d
add_values group key (value ∷ values) d =
    add_values group key values (pair_insert (key, value) group d)

unfoldable pub add_keys : String → Dict (List String) → PairDict → PairDict
unfolding add_values
add_keys group [] d = d
add_keys group ((key, values) ∷ keys) d = add_keys group keys (add_values group key values d)

unfoldable pub add_groups : Dict (Dict (List String)) → PairDict → PairDict
unfolding add_keys
add_groups [] d = d
add_groups ((group, keys) ∷ groups) d = add_groups groups (add_keys group keys d)

unfoldable pub group_by_key_value : PairDict
unfolding add_groups
group_by_key_value = add_groups group_defs []

pub record Category : Type 0 where
  pub key : Option String
  pub value : Option String
  pub group : Option String
  pub is_poi : Bool

-- `boundary == "administrative" or (admin_level is not None and admin_level > 0)`
unfoldable pub is_admin : Option String → Option ℤ → Bool
is_admin (some boundary) none = str_eq boundary "administrative"
is_admin none none = false
is_admin (some boundary) (some (negsuc n)) = str_eq boundary "administrative"
is_admin none (some (negsuc n)) = false
is_admin (some boundary) (some (pos n)) = str_eq boundary "administrative" || not (n == 0)
is_admin none (some (pos n)) = not (n == 0)

-- `"boundary" if boundary else None`
unfoldable pub boundary_key : Option String → Option String
boundary_key none = none
boundary_key (some boundary) = if str_eq boundary "" then none else some "boundary"

-- `v = tags.get(k)`, and none where it is not truthy.
unfoldable pub truthy : Option String → Option String
truthy none = none
truthy (some v) = if str_eq v "" then none else some v

-- `for k in CATEGORY_KEYS: ... break`
unfoldable pub first_match : List String → Dict String → Option (String × String)
unfolding truthy lookup
first_match [] tags = none
first_match (k ∷ keys) tags = elim (truthy (lookup k tags)) [
  | some v ↦ some (k, v)
  | none ↦ first_match keys tags
]

-- `GROUP_BY_KEY_VALUE.get((key, value)) or GROUP_BY_KEY.get(key)`; no group is the empty text.
unfoldable pub group_of : String → String → Option String
unfolding pair_lookup
group_of key value = elim (pair_lookup (key, value) group_by_key_value) [
  | some group ↦ some group
  | none ↦ lookup key group_by_key
]

unfoldable pub category_of : Option (String × String) → Category
unfolding group_of
category_of none = record { key = none; value = none; group = none; is_poi = false }
category_of (some (key, value)) =
    if str_eq key "place"
    then record { key = some key; value = some value; group = some group_place; is_poi = false }
    else record { key = some key; value = some value; group = group_of key value; is_poi = true }

unfoldable pub classify : Dict String → Option ℤ → Category
unfolding is_admin boundary_key first_match category_of
classify tags admin_level =
    let boundary = lookup "boundary" tags in
    if is_admin boundary admin_level
    then record {
      key = boundary_key boundary;
      value = boundary;
      group = some group_boundary;
      is_poi = false;
    }
    else category_of (first_match category_keys tags)
