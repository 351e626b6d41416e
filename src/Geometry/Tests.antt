-- ===== src/Geometry/Tests.antt =====
-- services/watcher.py and services/es_inserter.py, on small rings.
use geocoder_fwd.Prelude.{
  some, ◌≤◌, length, ℕ, ◌≡◌, refl, Bool, true, List, [], ◌∷◌, ◌==◌, leb, All, arith,
}
use geocoder_fwd.Geometry.{
  points, Line, assemble, assemble_rings, chain, join_first, join, close, thin_closed, thin_ends,
}
use geocoder_fwd.Geometry.Ended.{IsStuck, assemble_rings-assemble}
use geocoder_fwd.Geometry.Closed.{IsRing, assemble_rings-IsRing}
use geocoder_fwd.Geometry.Simplified.{
  Shape, polygon, round_shape, thin_geom, first_fit, simplify_geom,
}
use geocoder_fwd.Geometry.Simplified.Fits.{HasRings, simplify_geom-HasRings}

abbrev equal_points : ℕ → ℕ → Bool
equal_points a b = a == b

equal_points_refl : (x : ℕ) → equal_points x x ≡ true
equal_points_refl x = ground arith

abbrev line : ℕ → List ℕ → Line ℕ
line x xs = record { first = x; rest = xs }

-- Two ways, the second turned round, and one that is apart.
abbrev ways : List (Line ℕ)
ways = line 1 (2 ∷ 3 ∷ []) ∷ line 7 (8 ∷ 9 ∷ []) ∷ line 1 (5 ∷ 4 ∷ 3 ∷ []) ∷ []

rings_found :
    assemble_rings equal_points ways
    ≡ line 1 (2 ∷ 3 ∷ 4 ∷ 5 ∷ 1 ∷ []) ∷ line 7 (8 ∷ 9 ∷ 7 ∷ []) ∷ []
unfolding assemble_rings assemble chain join_first join close
rings_found = refl

assemble_rings-assemble_example :
    (assemble equal_points 5 ways ≡ assemble_rings equal_points ways)
    × IsStuck equal_points
        (chain equal_points 5 (line 1 (2 ∷ [])) ways).0
        (chain equal_points 5 (line 1 (2 ∷ [])) ways).1
assemble_rings-assemble_example =
    assemble_rings-assemble equal_points 5 (line 1 (2 ∷ [])) ways (omega arith)

assemble_rings-IsRing_example :
    All (IsRing equal_points (λ x. leb x 9 ≡ true)) (assemble_rings equal_points ways)
assemble_rings-IsRing_example =
    assemble_rings-IsRing equal_points (λ x. leb x 9 ≡ true) equal_points_refl ways
      (
        (refl, (refl, (refl, tt))),
        ((refl, (refl, (refl, tt))), ((refl, (refl, (refl, (refl, tt)))), tt)),
      )

abbrev ring : Line ℕ
ring = line 1 (2 ∷ 3 ∷ 4 ∷ 5 ∷ 6 ∷ 7 ∷ 1 ∷ [])

rings_thinned :
    (thin_closed equal_points 2 ring ≡ line 1 (3 ∷ 5 ∷ 7 ∷ 1 ∷ []))
    × (thin_ends equal_points 4 ring ≡ line 1 (2 ∷ 3 ∷ 1 ∷ []))
unfolding thin_closed thin_ends close
rings_thinned = (refl, refl)

abbrev rough : Shape ℕ
rough = polygon (ring ∷ [])

-- A geometry weighs what its first ring has of points.
abbrev weight : Shape ℕ → ℕ
weight (polygon (r ∷ rings)) = length (points r)
weight _ = 0

abbrev no_rounding : ℕ → ℕ → ℕ
no_rounding d x = x

rough_simplified :
    simplify_geom equal_points no_rounding weight 5 rough
    ≡ some (polygon (line 1 (3 ∷ 5 ∷ 7 ∷ 1 ∷ []) ∷ []))
unfolding simplify_geom first_fit thin_geom round_shape thin_closed close
rough_simplified = refl

simplify_geom-HasRings_example :
    (weight (polygon (line 1 (3 ∷ 5 ∷ 7 ∷ 1 ∷ []) ∷ [])) ≤ 5)
    × HasRings equal_points (polygon (line 1 (3 ∷ 5 ∷ 7 ∷ 1 ∷ []) ∷ []))
simplify_geom-HasRings_example =
    simplify_geom-HasRings equal_points equal_points_refl no_rounding (λ d x y h. h) weight 5 rough
      (polygon (line 1 (3 ∷ 5 ∷ 7 ∷ 1 ∷ []) ∷ [])) ((refl, omega arith), tt) rough_simplified
