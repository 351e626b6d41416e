-- ===== src/Interpolation/Estimate/Laws.antt =====
-- shared/interpolation.py: when `interpolate_address` answers, and what.
use geocoder_fwd.Prelude.{
  ℕ, ◌-◌, ◌≤◌, ◌<◌, ◌≡◌, refl, ◌∙◌, Bool, true, false, Option, none, some, List, [], ◌∷◌, ◌==◌, ltb,
  length, arith, Bool-cases, inl, inr,
}
use mathlib.Core.Path.{subst}
use geocoder_fwd.Interpolation.{Row, Address, parity, parse_rows, interpolation_confidence}
use geocoder_fwd.Interpolation.Brackets.{
  brackets, exact_match, neighbours, sort_by_number, lower_of_all, upper_of_all,
}
use geocoder_fwd.Interpolation.Brackets.Laws.{IsLower, IsUpper, brackets_nearest}
use geocoder_fwd.Interpolation.Line.{
  Floats, Point, nat, nearest_cluster, nearest_to, or_all, around,
}
use geocoder_fwd.Interpolation.Estimate.{
  Estimate, MatchType, exact, interpolated, between, from_parsed, exact_or, exact_address,
  estimated, line_up, snap, narrowed, interpolate_address,
}

interpolation_confidence_mono :
    (gap wider : ℕ) → gap ≤ wider → interpolation_confidence wider ≤ interpolation_confidence gap
unfolding interpolation_confidence
interpolation_confidence_mono gap wider h = ground arith

interpolation_confidence_bounds :
    (gap : ℕ) → (30 ≤ interpolation_confidence gap) × (interpolation_confidence gap ≤ 95)
unfolding interpolation_confidence
interpolation_confidence_bounds gap = ground arith

abbrev pub answers : {A : Type 0} → Option A → Bool
answers none = false
answers (some a) = true

abbrev pub is_cons : {A : Type 0} → List A → Bool
is_cons [] = false
is_cons (a ∷ rest) = true

module _ {F : Type 0} (m : Floats F) where
  nearest_cluster_cons :
      (parsed : List (Address F)) (near : Point F) (cluster_m : F)
      → is_cons (nearest_cluster m parsed near cluster_m) ≡ is_cons parsed
  unfolding nearest_cluster
  nearest_cluster_cons [] near cluster_m = refl
  nearest_cluster_cons (a ∷ rest) near cluster_m =
      chosen (around m (nearest_to m near a rest) cluster_m (a ∷ rest)) a rest
    where
      chosen :
          (clustered : List (Address F)) (a : Address F) (rest : List (Address F))
          → is_cons (or_all m clustered (a ∷ rest)) ≡ true
      chosen [] a rest = refl
      chosen (b ∷ clustered) a rest = refl

  narrowed_cons :
      (near : Option (Point F)) (parsed : List (Address F))
      → is_cons (narrowed m near parsed) ≡ is_cons parsed
  narrowed_cons none parsed = refl
  narrowed_cons (some near) parsed = elim (Bool-cases (ltb 1 (length parsed))) [
    | inl e ↦ rw e (nearest_cluster_cons parsed near (nat m 2000))
    | inr e ↦ rw e refl
  ]

  -- Without a neighbour on either side, every number is the one asked for.
  found_exact :
      (n : ℕ) (a : Address F) (rest : List (Address F))
      → n ≤ a.0
      → a.0 ≤ n
      → exact_match n (a ∷ rest) ≡ some a
  unfolding exact_match
  found_exact n a rest le ge = let e : (a.0 == n) ≡ true = ground (arith, le, ge) in rw e refl

  exact_or-answers :
      (n : ℕ) (found : Option (Address F)) (e : Estimate F)
      → answers (exact_or m found n (some e)) ≡ true
  exact_or-answers n none e = refl
  exact_or-answers n (some a) e = refl

  module _ (street_line : Point F → Option (List (Point F))) where
    from_some :
        (n : ℕ) (a : Address F) (rest : List (Address F)) (lower upper : Option (Address F))
        → IsLower n (a ∷ rest) lower
        → IsUpper n (a ∷ rest) upper
        → answers (exact_or m (exact_match n (a ∷ rest)) n (between m street_line n lower upper))
          ≡ true
    unfolding between
    from_some n a rest none none (le, _) (ge, _) = rw (found_exact n a rest le ge) refl
    from_some n a rest (some low) none _ _ = exact_or-answers n (exact_match n (a ∷ rest)) _
    from_some n a rest none (some high) _ _ = exact_or-answers n (exact_match n (a ∷ rest)) _
    from_some n a rest (some low) (some high) _ _ = exact_or-answers n (exact_match n (a ∷ rest)) _

    from_nothing : (n : ℕ) → answers (from_parsed m street_line n []) ≡ false
    unfolding from_parsed brackets exact_match between neighbours sort_by_number lower_of_all
        upper_of_all
    from_nothing n = refl

    from_parsed-answers :
        (n : ℕ) (parsed : List (Address F))
        → answers (from_parsed m street_line n parsed) ≡ is_cons parsed
    unfolding from_parsed
    from_parsed-answers n [] = from_nothing n
    from_parsed-answers n (a ∷ rest) =
        let (lower, upper) = brackets_nearest n (a ∷ rest) in from_some n a rest _ _ lower upper

    -- `interpolate_address` answers exactly when the number of some row can be read: an exact match or a
    -- neighbour is then found, whatever the reference point, the distances and the street's line are.
    pub interpolate_address-answers :
        (digit : ℕ → Option (Option ℕ)) (n : ℕ) (near : Option (Point F)) (rows : List (Row F))
        → answers (interpolate_address m street_line digit n near rows)
          ≡ is_cons (parse_rows digit rows)
    unfolding interpolate_address
    interpolate_address-answers digit n near rows =
        from_parsed-answers n (narrowed m near (parse_rows digit rows))
        ∙ narrowed_cons near (parse_rows digit rows)

  -- The number and the side are those asked for, the neighbours that are named lie below and above,
  -- and the confidence is at least 0.3 and below 1 unless the match is exact.
  abbrev LowOk : ℕ → Option ℕ → Type 0
  LowOk n none = Unit
  LowOk n (some low) = low < n

  abbrev HighOk : ℕ → Option ℕ → Type 0
  HighOk n none = Unit
  HighOk n (some high) = n < high

  abbrev ConfidenceOk : MatchType → ℕ → Type 0
  ConfidenceOk exact c = c ≡ 100
  ConfidenceOk interpolated c = (30 ≤ c) × (c ≤ 95)

  abbrev pub IsEstimate : ℕ → Estimate F → Type 0
  IsEstimate n e =
      (e.housenumber ≡ n)
      × (e.side ≡ parity n)
      × LowOk n e.bracket_low
      × HighOk n e.bracket_high
      × ConfidenceOk e.match_type e.confidence

  module _ (street_line : Point F → Option (List (Point F))) where
    chosen-IsEstimate :
        (n : ℕ) (parsed : List (Address F)) (found lower upper : Option (Address F))
        (e : Estimate F)
        → IsLower n parsed lower
        → IsUpper n parsed upper
        → exact_or m found n (between m street_line n lower upper) ≡ some e
        → IsEstimate n e
    unfolding between
    chosen-IsEstimate n parsed (some a) lower upper e _ _ h =
        let same : exact_address m n a.1 ≡ e = cc in
        subst (IsEstimate n) same (refl, refl, tt, tt, refl)
    chosen-IsEstimate n parsed none none none e _ _ h = cc
    chosen-IsEstimate n parsed none (some low) none e (lt, _) _ h =
        let same : estimated m n low.1 (low.1.lat, low.1.lon) 30 (some low.0) none ≡ e = cc in
        subst (IsEstimate n) same (refl, refl, lt, tt, (omega arith, omega arith))
    chosen-IsEstimate n parsed none none (some high) e _ (lt, _) h =
        let same : estimated m n high.1 (high.1.lat, high.1.lon) 30 none (some high.0) ≡ e = cc in
        subst (IsEstimate n) same (refl, refl, tt, lt, (omega arith, omega arith))
    chosen-IsEstimate n parsed none (some low) (some high) e (lt, _) (gt, _) h =
        let place : Point F = line_up m n low high in
        let same : estimated m n low.1 (snap m (street_line place) n low high place)
              (interpolation_confidence (high.0 - low.0)) (some low.0) (some high.0)
            ≡ e =
          cc in
        subst (IsEstimate n) same
          (refl, refl, lt, gt, interpolation_confidence_bounds (high.0 - low.0))

    -- What `interpolate_address` answers has the number and the side asked for; a lower neighbour that
    -- it names is below the number and an upper one above; an exact match has confidence 1, any other
    -- from 0.3 to 0.95.
    interpolate_address-IsEstimate :
        (digit : ℕ → Option (Option ℕ)) (n : ℕ) (near : Option (Point F)) (rows : List (Row F))
        (e : Estimate F)
        → interpolate_address m street_line digit n near rows ≡ some e
        → IsEstimate n e
    unfolding interpolate_address from_parsed
    interpolate_address-IsEstimate digit n near rows e h =
        let parsed : List (Address F) = narrowed m near (parse_rows digit rows) in
        let (lower, upper) = brackets_nearest n parsed in
        chosen-IsEstimate n parsed (exact_match n parsed) _ _ e lower upper h
