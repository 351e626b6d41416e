-- ===== src/Autocomplete/Laws.antt =====
-- shared/autocomplete.py: what `query` returns.
use geocoder_fwd.Prelude.{
  ℕ, zero, suc, ◌≤◌, ◌≡◌, refl, ap, Bool, true, false, Option, none, some, List, [], ◌∷◌, map, ltb,
  length, take, All, arith, Bool-cases, inl, inr, length-take_le,
}
use geocoder_fwd.Autocomplete.{
  Text, min_prefix, Entry, match_quality, unique_entries, add_scored, score_all, best_quality,
  insert_scored, sort_scored, query,
}

abbrev pub is_some : Option ℕ → Bool
is_some none = false
is_some (some n) = true

module _ (normalise : Text → Text) (rank_score : Entry → ℕ → ℕ) where
  abbrev Scored : Type 0
  Scored = ℕ × Entry

  abbrev IsMatch : Text → Scored → Type 0
  IsMatch q s = is_some (match_quality normalise q s.1) ≡ true

  add_scored-IsMatch :
      (q : Text) (e : Entry) (o : Option ℕ) (rest : List Scored)
      → match_quality normalise q e ≡ o
      → All (IsMatch q) rest
      → All (IsMatch q) (add_scored normalise rank_score e o rest)
  add_scored-IsMatch q e none rest eq all = all
  add_scored-IsMatch q e (some quality) rest eq all = (ap is_some eq, all)

  score_all-IsMatch :
      (q : Text) (es : List Entry) → All (IsMatch q) (score_all normalise rank_score q es)
  score_all-IsMatch q [] = tt
  score_all-IsMatch q (e ∷ es) =
      add_scored-IsMatch q e (match_quality normalise q e) _ refl (score_all-IsMatch q es)

  insert_scored-All :
      (P : Scored → Type 0) (a : Scored) (bs : List Scored)
      → P a
      → All P bs
      → All P (insert_scored normalise rank_score a bs)
  insert_scored-All P a [] p all = (p, tt)
  insert_scored-All P a (b ∷ bs) p (r, all) = elim (Bool-cases (ltb a.0 b.0)) [
    | inl e ↦ rw (e, All) (r, insert_scored-All P a bs p all)
    | inr e ↦ rw (e, All) (p, (r, all))
  ]

  sort_scored-All :
      (P : Scored → Type 0) (bs : List Scored)
      → All P bs
      → All P (sort_scored normalise rank_score bs)
  sort_scored-All P [] all = tt
  sort_scored-All P (b ∷ bs) (p, all) =
      insert_scored-All P b (sort_scored normalise rank_score bs) p (sort_scored-All P bs all)

  hits_match :
      (q : Text) (n : ℕ) (bs : List Scored)
      → All (IsMatch q) bs
      → All (λ e. is_some (match_quality normalise q e) ≡ true) (map (λ s. s.1) (take n bs))
  hits_match q zero bs all = tt
  hits_match q (suc n) [] all = tt
  hits_match q (suc n) (b ∷ bs) (p, all) = (p, hits_match q n bs all)

  length-map : (bs : List Scored) → length (map (λ (s : Scored). s.1) bs) ≡ length bs
  length-map [] = refl
  length-map (b ∷ bs) = ap suc (length-map bs)

  abbrev hits_of : Text → ℕ → List Entry → List Entry
  hits_of q limit raw =
      map (λ s. s.1)
        (take limit (
          sort_scored normalise rank_score
            (score_all normalise rank_score q (unique_entries normalise [] raw))))

  -- Every suggestion that `query` returns matches the whole query in one of its texts, and there are
  -- no more than the limit.
  query_hits :
      (q : Text) (limit : ℕ) (raw : List Entry)
      → All
          (λ e. is_some (match_quality normalise q e) ≡ true)
          (query normalise rank_score q limit raw).0
        × (length (query normalise rank_score q limit raw).0 ≤ limit)
  unfolding query
  query_hits q limit raw = elim (Bool-cases (ltb (length q) min_prefix)) [
    | inl short ↦ rw short (tt, omega arith)
    | inr long ↦
        let sorted =
          sort_scored normalise rank_score
            (score_all normalise rank_score q (unique_entries normalise [] raw)) in
        let few : length (hits_of q limit raw) ≤ limit =
          omega (arith, length-map (take limit sorted), length-take_le limit sorted) in
        rw long (
          hits_match q limit sorted (
              sort_scored-All (IsMatch q) _
                (score_all-IsMatch q (unique_entries normalise [] raw))),
          few,
        )
  ]

  -- The answer fills the limit, and its best match is at least that of a name that begins with the query.
  abbrev pub IsSaturated : Text → ℕ → List Entry → Type 0
  IsSaturated q limit raw =
      (2 ≤ length q)
      × (length (query normalise rank_score q limit raw).0 ≡ limit)
      × (8 ≤ best_quality normalise rank_score q 0 (unique_entries normalise [] raw))

  saturated :
      (q : Text) (limit : ℕ) (raw : List Entry)
      → (query normalise rank_score q limit raw).1 ≡ true
      → length (query normalise rank_score q limit raw).0 ≤ limit
      → IsSaturated q limit raw
  unfolding query
  saturated q limit raw = elim (Bool-cases (ltb (length q) min_prefix)) [
    | inl short ↦ rw short (λ confident few. let no : false ≡ true = confident in cc)
    | inr long ↦ rw long (λ confident few.
        (ground (arith, long), ground (arith, few, confident), ground (arith, confident)))
  ]

  -- A confident answer of `query` is to a query of two letters or more and has as many suggestions as the
  -- limit; each of them matches the whole query in one of its texts, and the best match among the
  -- candidates is at least that of a name that begins with the query.
  pub query_confident :
      (q : Text) (limit : ℕ) (raw : List Entry)
      → (query normalise rank_score q limit raw).1 ≡ true
      → All
          (λ e. is_some (match_quality normalise q e) ≡ true)
          (query normalise rank_score q limit raw).0
        × IsSaturated q limit raw
  query_confident q limit raw confident =
      let (matches, few) = query_hits q limit raw in (matches, saturated q limit raw confident few)
