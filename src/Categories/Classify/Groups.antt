-- ===== src/Categories/Classify/Groups.antt =====
-- shared/categories.py: the lookup of groups against the taxonomy it is built from.
use geocoder_fwd.Prelude.{
  ◌≡◌, refl, Bool, true, false, ◌&&◌, Option, none, some, List, [], ◌∷◌, String, Dict, lookup,
  str_eq, eq_iff, contains, arith, Bool-cases, inl, inr,
}
use geocoder_fwd.Categories.Taxonomy.{group_defs}
use geocoder_fwd.Categories.Classify.{group_of, group_by_key_value, pair_eq}

-- `o` is the text `s`.
is_some : String → Option String → Bool
is_some s none = false
is_some s (some t) = str_eq t s

values_in : String → String → List String → Bool
unfolding is_some
values_in group key [] = true
values_in group key (value ∷ values) =
    is_some group (group_of key value) && values_in group key values

keys_in : String → Dict (List String) → Bool
unfolding values_in
keys_in group [] = true
keys_in group ((key, values) ∷ keys) = values_in group key values && keys_in group keys

groups_in : Dict (Dict (List String)) → Bool
unfolding keys_in
groups_in [] = true
groups_in ((group, keys) ∷ groups) = keys_in group keys && groups_in groups

all_in : groups_in group_defs ≡ true
unfolding groups_in group_of group_by_key_value pair_eq
all_in = refl

is_some_eq : (s : String) (o : Option String) → is_some s o ≡ true → o ≡ some s
unfolding is_some
is_some_eq s none h = ground (arith, h)
is_some_eq s (some t) h = ground (arith, eq_iff t s, h)

values_in-contains :
    (group key value : String) (values : List String)
    → values_in group key values ≡ true
    → contains value values ≡ true
    → group_of key value ≡ some group
unfolding values_in
values_in-contains group key value [] h e = ground (arith, e)
values_in-contains group key value (v ∷ values) h e =
    let here : is_some group (group_of key v) ≡ true = ground (arith, h) in
    let rest : values_in group key values ≡ true = ground (arith, h) in
    elim (Bool-cases (str_eq v value)) [
      | inl f ↦
          let same : v ≡ value = ground (arith, eq_iff v value, f) in
          let found = is_some_eq group (group_of key v) here in cc
      | inr f ↦ values_in-contains group key value values rest (ground (arith, e, f))
    ]

keys_in-lookup :
    (group key : String) (keys : Dict (List String)) (values : List String)
    → keys_in group keys ≡ true
    → lookup key keys ≡ some values
    → values_in group key values ≡ true
unfolding keys_in lookup
keys_in-lookup group key [] values h e = cc
keys_in-lookup group key ((k, vs) ∷ keys) values h e = elim (Bool-cases (str_eq k key)) [
  | inl f ↦
      let same : k ≡ key = ground (arith, eq_iff k key, f) in
      let here : values_in group k vs ≡ true = ground (arith, h) in
      let listed : some vs ≡ some values = rw f at e in cc
  | inr f ↦
      let later : lookup key keys ≡ some values = rw f at e in
      let rest : keys_in group keys ≡ true = ground (arith, h) in
      keys_in-lookup group key keys values rest later
]

groups_in-lookup :
    (group : String) (groups : Dict (Dict (List String))) (keys : Dict (List String))
    → groups_in groups ≡ true
    → lookup group groups ≡ some keys
    → keys_in group keys ≡ true
unfolding groups_in lookup
groups_in-lookup group [] keys h e = cc
groups_in-lookup group ((g, ks) ∷ groups) keys h e = elim (Bool-cases (str_eq g group)) [
  | inl f ↦
      let same : g ≡ group = ground (arith, eq_iff g group, f) in
      let here : keys_in g ks ≡ true = ground (arith, h) in
      let listed : some ks ≡ some keys = rw f at e in cc
  | inr f ↦
      let later : lookup group groups ≡ some keys = rw f at e in
      let rest : groups_in groups ≡ true = ground (arith, h) in
      groups_in-lookup group groups keys rest later
]

-- The derived lookup agrees with the taxonomy: every value that the taxonomy lists for a key of a
-- group has that group. So no pair of a key and a value is listed in two groups.
pub group_of-group_defs :
    (group key value : String) (keys : Dict (List String)) (values : List String)
    → lookup group group_defs ≡ some keys
    → lookup key keys ≡ some values
    → contains value values ≡ true
    → group_of key value ≡ some group
group_of-group_defs group key value keys values g k v =
    values_in-contains group key value values
      (keys_in-lookup group key keys values (groups_in-lookup group group_defs keys all_in g) k) v
