-- ===== src/Autocomplete/Tests.antt =====
-- Two places and a query of three letters.
use geocoder_fwd.Prelude.{ℕ, ◌+◌, ◌*◌, ◌≡◌, refl, true, List, [], ◌∷◌, All, any, codes, arith}
use geocoder_fwd.Autocomplete.{
  Text, Entry, query, match_quality, text_tier, bucket, index_prefixes, same_text,
}
use geocoder_fwd.Autocomplete.Laws.{is_some, IsSaturated, query_confident}
use geocoder_fwd.Autocomplete.Buckets.{index_prefixes-bucket}

abbrev entry : ℕ → Text → Entry
entry osm_id name = record {
  osm_id = osm_id;
  name = name;
  name_en = [];
  name_fr = [];
  label = name;
}

abbrev places : List Entry
places =
    entry 1 (codes "metro mall")
    ∷ entry 2 (codes "al metro")
    ∷ entry 1 (codes "metro mall")
    ∷ entry 3 (codes "zoo")
    ∷ []

abbrev score : Entry → ℕ → ℕ
score e quality = 10 * quality + e.osm_id

two_hits :
    query (λ s. s) score (codes "met") 2 places
    ≡ (entry 1 (codes "metro mall") ∷ entry 2 (codes "al metro") ∷ [], true)
unfolding query match_quality text_tier
two_hits = refl

confident : (query (λ s. s) score (codes "met") 2 places).1 ≡ true
unfolding query match_quality text_tier
confident = refl

query_confident_example :
    All
      (λ e. is_some (match_quality (λ s. s) (codes "met") e) ≡ true)
      (query (λ s. s) score (codes "met") 2 places).0
    × IsSaturated (λ s. s) score (codes "met") 2 places
query_confident_example = query_confident (λ s. s) score (codes "met") 2 places confident

tier_of_word : is_some (text_tier (codes "met") (codes "al metro")) ≡ true
unfolding text_tier
tier_of_word = refl

index_prefixes-bucket_example :
    any (same_text (bucket (λ s. s) (codes "met"))) (index_prefixes (λ s. s) (codes "al metro"))
    ≡ true
index_prefixes-bucket_example =
    index_prefixes-bucket (λ s. s) (codes "met") (codes "al metro") (omega arith) (refl, (refl, tt))
      tier_of_word
