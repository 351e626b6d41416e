-- ===== src/Geometry/Simplified.antt =====
-- services/watcher.py, `_simplify_geom`, with `_round_coords` and `_thin_geom`. The rounding of a point and the
-- size of a geometry as JSON are arguments.
pub mod Fits
use geocoder_fwd.Prelude.{
  ℕ, Bool, true, false, Option, none, some, List, [], ◌∷◌, if◌then◌else◌, leb, map, length,
}
use geocoder_fwd.Geometry.{Line, points, stepped, thin_closed}

-- The coordinates of a geometry by its type; `scattered` is any type that is not thinned.
pub data Shape (A : Type 0) : Type 0 where
  polygon : List (Line A) → Shape A
  multi_polygon : List (List (Line A)) → Shape A
  line_string : Line A → Shape A
  scattered : List A → Shape A

abbrev pub map_line : {A : Type 0} → (A → A) → Line A → Line A
map_line f l = record { first = f l.first; rest = map f l.rest }

unfoldable pub round_shape : {A : Type 0} → (A → A) → Shape A → Shape A
round_shape f (polygon rings) = polygon (map (map_line f) rings)
round_shape f (multi_polygon polygons) = multi_polygon (map (map (map_line f)) polygons)
round_shape f (line_string l) = line_string (map_line f l)
round_shape f (scattered ps) = scattered (map f ps)

-- `if not coords`
abbrev pub is_blank : {A : Type 0} → Shape A → Bool
is_blank (polygon []) = true
is_blank (polygon (r ∷ rings)) = false
is_blank (multi_polygon []) = true
is_blank (multi_polygon (p ∷ polygons)) = false
is_blank (line_string l) = false
is_blank (scattered []) = true
is_blank (scattered (p ∷ ps)) = false

module _ {A : Type 0} (same : A → A → Bool) where
  abbrev pub thin_line : ℕ → Line A → Line A
  thin_line stride l =
      let thinned = stepped stride l in if leb 2 (length (points thinned)) then thinned else l

  unfoldable pub thin_geom : ℕ → Shape A → Shape A
  unfolding thin_closed
  thin_geom stride (polygon rings) = polygon (map (thin_closed same stride) rings)
  thin_geom stride (multi_polygon polygons) =
      multi_polygon (map (map (thin_closed same stride)) polygons)
  thin_geom stride (line_string l) = line_string (thin_line stride l)
  thin_geom stride (scattered ps) = scattered ps

  module _ (round : ℕ → A → A) (size : Shape A → ℕ) (target : ℕ) where
    -- One round after the other, each on what the last one left: the first result that fits, and the last.
    unfoldable pub first_fit :
        (ℕ → Shape A → Shape A) → List ℕ → Shape A → Option (Shape A) × Shape A
    first_fit f [] s = (none, s)
    first_fit f (n ∷ ns) s =
        let s' = f n s in
        let later = first_fit f ns s' in if leb (size s') target then (some s', s') else later

    abbrev pub or_thinned : Option (Shape A) × Shape A → Option (Shape A)
    or_thinned (some s, last) = some s
    or_thinned (none, last) = (first_fit thin_geom (2 ∷ 4 ∷ 8 ∷ 16 ∷ []) last).0

    unfoldable pub simplify_geom : Shape A → Option (Shape A)
    unfolding first_fit thin_geom round_shape
    simplify_geom s =
        if is_blank s
        then none
        else or_thinned (first_fit (λ (d : ℕ). round_shape (round d)) (5 ∷ 4 ∷ 3 ∷ []) s)
