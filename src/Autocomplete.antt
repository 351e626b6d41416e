-- ===== src/Autocomplete.antt =====
-- shared/autocomplete.py: the prefixes of the index, the match tiers and the lookup. A text is the list of
-- its code points; `normalise` is an argument, and tiers are in tenths.
pub mod Laws
pub mod Buckets
mod Tests
use geocoder_fwd.Prelude.{
  ℕ, ◌+◌, ◌-◌, ◌≤◌, ◌<◌, max, Bool, true, false, not, ◌&&◌, ◌||◌, Option, none, some, List, [], ◌∷◌,
  ◌++◌, ◌==◌, map, leb, ltb, if◌then◌else◌, length, take, filter, flatten, any, codes,
}

abbrev pub Text : Type 0
Text = List ℕ

abbrev pub same_text : Text → Text → Bool
same_text [] [] = true
same_text [] (b ∷ t) = false
same_text (a ∷ s) [] = false
same_text (a ∷ s) (b ∷ t) = (a == b) && same_text s t

-- `str.startswith`
abbrev pub starts_with : Text → Text → Bool
starts_with [] s = true
starts_with (a ∷ q) [] = false
starts_with (a ∷ q) (b ∷ s) = (a == b) && starts_with q s

abbrev pub add_word : Text → List Text → List Text
add_word [] ws = ws
add_word (c ∷ w) ws = (c ∷ w) ∷ ws

-- `str.split()`, from the right: the word that is open, and those after it.
abbrev pub split : Text → Text × List Text
split [] = ([], [])
split (c ∷ s) = let (w, ws) = split s in if c == 32 then ([], add_word w ws) else (c ∷ w, ws)

abbrev pub words : Text → List Text
words s = add_word (split s).0 (split s).1

abbrev pub min_prefix : ℕ
min_prefix = 2

abbrev pub max_prefix : ℕ
max_prefix = 6

-- `normed[:length]` for `range(MIN_PREFIX, min(MAX_PREFIX + 1, len(normed) + 1))`
unfoldable pub prefixes : Text → List Text
prefixes normed =
    map (λ n. take n normed) (filter (λ n. leb n (length normed)) (2 ∷ 3 ∷ 4 ∷ 5 ∷ 6 ∷ []))

-- The first is the Arabic one, alef and lam.
abbrev pub articles : List Text
articles = (1575 ∷ 1604 ∷ []) ∷ map codes ("al" ∷ "el" ∷ "the" ∷ "la" ∷ "le" ∷ "los" ∷ "las" ∷ [])

-- What `_strip_article` leaves at the head.
abbrev pub head_word : List Text → Option Text
head_word [] = none
head_word (w ∷ []) = some w
head_word (w ∷ v ∷ ws) = if any (same_text w) articles then some v else some w

abbrev pub starts_head : Text → Option Text → Bool
starts_head q none = false
starts_head q (some w) = starts_with q w

-- The tier of one text, 10 for the whole and 8, 6 and 4 for its beginning, its first word's and another's.
unfoldable pub text_tier : Text → Text → Option ℕ
text_tier q text =
    if same_text text q
    then some 10
    else if starts_with q text
    then some 8
    else if starts_head q (head_word (words text))
    then some 6
    else if any (starts_with q) (words text)
    then some 4
    else none

abbrev pub is_empty : Text → Bool
is_empty [] = true
is_empty (c ∷ s) = false

abbrev pub best_of : Option ℕ → Option ℕ → Option ℕ
best_of best none = best
best_of none (some tier) = some tier
best_of (some best) (some tier) = some (max best tier)

pub record Entry : Type 0 where
  pub osm_id : ℕ
  pub name : Text
  pub name_en : Text
  pub name_fr : Text
  pub label : Text

module _ (normalise : Text → Text) where
  -- The loop over the texts of an entry; a whole match ends it.
  abbrev pub quality_from : Text → Option ℕ → List Text → Option ℕ
  quality_from q best [] = best
  quality_from q best (raw ∷ raws) =
      let text : Text = normalise raw in
      let next = quality_from q (best_of best (text_tier q text)) raws in
      let skip = quality_from q best raws in
      if is_empty raw || is_empty text then skip else if same_text text q then some 10 else next

  unfoldable pub match_quality : Text → Entry → Option ℕ
  match_quality q e = quality_from q none (e.name ∷ e.name_en ∷ e.name_fr ∷ e.label ∷ [])

  -- What `index_entry` files a text under: its prefixes, and those of its words of two letters or more.
  unfoldable pub index_prefixes : Text → List Text
  unfolding prefixes
  index_prefixes raw =
      prefixes (normalise raw)
      ++ flatten (
          map (λ w. prefixes (normalise w))
            (filter (λ w. leb min_prefix (length w)) (words (normalise raw))))

  -- The key of the bucket that `query` reads.
  abbrev pub bucket : Text → Text
  bucket normed = take max_prefix normed

  abbrev pub has_id : ℕ → Entry → Bool
  has_id osm_id e = e.osm_id == osm_id

  -- `candidates.setdefault(oid, entry)`, in the order of the buckets.
  abbrev pub unique_entries : List Entry → List Entry → List Entry
  unique_entries kept [] = kept
  unique_entries kept (e ∷ raw) =
      let seen = unique_entries kept raw in
      let new = unique_entries (kept ++ (e ∷ [])) raw in
      if any (has_id e.osm_id) kept then seen else new

  abbrev pub Scored : Type 0
  Scored = ℕ × Entry

  -- `_rank_score`, which also looks at prominence and distance, is an argument.
  module _ (rank_score : Entry → ℕ → ℕ) where
    abbrev pub add_scored : Entry → Option ℕ → List Scored → List Scored
    add_scored e none rest = rest
    add_scored e (some quality) rest = (rank_score e quality, e) ∷ rest

    abbrev pub score_all : Text → List Entry → List Scored
    score_all q [] = []
    score_all q (e ∷ es) = add_scored e (match_quality q e) (score_all q es)

    abbrev pub best_quality : Text → ℕ → List Entry → ℕ
    best_quality q best [] = best
    best_quality q best (e ∷ es) = best_quality q (raised_to best (match_quality q e)) es
      where
        raised_to : ℕ → Option ℕ → ℕ
        raised_to best none = best
        raised_to best (some quality) = max best quality

    -- `sort(key=..., reverse=True)`, which keeps the order of equal scores.
    abbrev pub insert_scored : Scored → List Scored → List Scored
    insert_scored a [] = a ∷ []
    insert_scored a (b ∷ bs) =
        let rest = insert_scored a bs in if ltb a.0 b.0 then b ∷ rest else a ∷ b ∷ bs

    abbrev pub sort_scored : List Scored → List Scored
    sort_scored [] = []
    sort_scored (a ∷ bs) = insert_scored a (sort_scored bs)

    -- Of the normalised query and the entries of the buckets, in their order.
    unfoldable pub query : Text → ℕ → List Entry → List Entry × Bool
    query normed limit raw =
        let candidates = unique_entries [] raw in
        let hits = map (λ s. s.1) (take limit (sort_scored (score_all normed candidates))) in
        if ltb (length normed) min_prefix
        then ([], false)
        else (hits, leb limit (length hits) && leb 8 (best_quality normed 0 candidates))
