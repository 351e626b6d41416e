-- ===== src/Categories/Tests.antt =====
-- shared/categories.py: the results at a bakery that is also tagged as a building.
use geocoder_fwd.Prelude.{◌≡◌, refl, false, none, some, List, [], ◌∷◌, String, Dict, lookup}
use geocoder_fwd.Categories.Taxonomy.{food_values, group_defs}
use geocoder_fwd.Categories.Classify.{truthy, group_of, is_admin}
use geocoder_fwd.Categories.Classify.Groups.{group_of-group_defs}

abbrev bakery : Dict String
bakery = ("building", "yes") ∷ ("shop", "bakery") ∷ []

no_boundary : is_admin (lookup "boundary" bakery) none ≡ false
unfolding is_admin lookup
no_boundary = refl

no_amenity : truthy (lookup "amenity" bakery) ≡ none
unfolding truthy lookup
no_amenity = refl

shop : truthy (lookup "shop" bakery) ≡ some "bakery"
unfolding truthy lookup
shop = refl

food : lookup "food" group_defs ≡ some food_values
unfolding lookup
food = refl

abbrev shops : List String
shops =
    "bakery" ∷ "pastry" ∷ "confectionery" ∷ "deli" ∷ "butcher" ∷ "greengrocer" ∷ "seafood"
    ∷ "coffee" ∷ []

food_shops : lookup "shop" food_values ≡ some shops
unfolding lookup
food_shops = refl

group_of-group_defs_example : group_of "shop" "bakery" ≡ some "food"
group_of-group_defs_example =
    group_of-group_defs "food" "shop" "bakery" food_values shops food food_shops refl
