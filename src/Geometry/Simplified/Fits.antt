-- ===== src/Geometry/Simplified/Fits.antt =====
-- services/watcher.py, `_simplify_geom`: the size and the rings of what it gives.
use geocoder_fwd.Prelude.{
  ℕ, suc, ◌≤◌, ◌≡◌, refl, ap, ◌∙◌, Bool, true, Option, none, some, List, [], ◌∷◌, leb, map, length,
  Bool-cases, inl, inr, All, arith,
}
use mathlib.Core.Path.{subst}
use geocoder_fwd.Geometry.{Line, points, last, last_of, is_closed, thin_closed}
use geocoder_fwd.Geometry.Thinned.{thin_closed-is_closed}
use geocoder_fwd.Geometry.Simplified.{
  Shape, polygon, multi_polygon, line_string, scattered, map_line, round_shape, is_blank, thin_geom,
  first_fit, or_thinned, simplify_geom,
}

last_of-map :
    {A : Type 0} (f : A → A) (x : A) (xs : List A) → last_of (f x) (map f xs) ≡ f (last_of x xs)
last_of-map f x [] = refl
last_of-map f x (y ∷ ys) = last_of-map f y ys

length-map : {A : Type 0} (f : A → A) (xs : List A) → length (map f xs) ≡ length xs
length-map f [] = refl
length-map f (x ∷ xs) = ap suc (length-map f xs)

map-All :
    {B : Type 0} (P : B → Type 0) (f : B → B)
    → ((b : B) → P b → P (f b))
    → (bs : List B) → All P bs
    → All P (map f bs)
map-All P f h [] all = tt
map-All P f h (b ∷ bs) (good, all) = (h b good, map-All P f h bs all)

module _ {A : Type 0} (same : A → A → Bool) where
  -- A closed ring of at least four points.
  abbrev pub IsValid : Line A → Type 0
  IsValid l = (is_closed same l ≡ true) × (4 ≤ length (points l))

  abbrev pub HasRings : Shape A → Type 0
  HasRings (polygon rings) = All IsValid rings
  HasRings (multi_polygon polygons) = All (All IsValid) polygons
  HasRings (line_string l) = Unit
  HasRings (scattered ps) = Unit

module _ {A : Type 0} (same : A → A → Bool) (refl_same : (x : A) → same x x ≡ true)
    (round : ℕ → A → A)
    (round_same : (d : ℕ) (x y : A) → same x y ≡ true → same (round d x) (round d y) ≡ true)
    (size : Shape A → ℕ) (target : ℕ) where
  round-IsValid : (d : ℕ) (l : Line A) → IsValid same l → IsValid same (map_line (round d) l)
  round-IsValid d l (closed, long) = (
    ap (same (round d l.first)) (last_of-map (round d) l.first l.rest)
        ∙ round_same d l.first (last l) closed,
    omega (arith, long, length-map (round d) l.rest),
  )

  thin-IsValid :
      (stride : ℕ) (l : Line A) → IsValid same l → IsValid same (thin_closed same stride l)
  thin-IsValid stride l (closed, long) = thin_closed-is_closed same refl_same stride l closed long

  round_shape-HasRings :
      (d : ℕ) (s : Shape A) → HasRings same s → HasRings same (round_shape (round d) s)
  unfolding round_shape
  round_shape-HasRings d (polygon rings) h =
      map-All (IsValid same) (map_line (round d)) (round-IsValid d) rings h
  round_shape-HasRings d (multi_polygon polygons) h =
      map-All (All (IsValid same)) (map (map_line (round d)))
        (λ rings. map-All (IsValid same) (map_line (round d)) (round-IsValid d) rings) polygons h
  round_shape-HasRings d (line_string l) h = tt
  round_shape-HasRings d (scattered ps) h = tt

  thin_geom-HasRings :
      (stride : ℕ) (s : Shape A) → HasRings same s → HasRings same (thin_geom same stride s)
  unfolding thin_geom
  thin_geom-HasRings stride (polygon rings) h =
      map-All (IsValid same) (thin_closed same stride) (thin-IsValid stride) rings h
  thin_geom-HasRings stride (multi_polygon polygons) h =
      map-All (All (IsValid same)) (map (thin_closed same stride))
        (λ rings. map-All (IsValid same) (thin_closed same stride) (thin-IsValid stride) rings)
        polygons h
  thin_geom-HasRings stride (line_string l) h = tt
  thin_geom-HasRings stride (scattered ps) h = tt

  -- What a search for a geometry that fits may find.
  abbrev pub Fits : Option (Shape A) → Type 0
  Fits none = Unit
  Fits (some s) = (size s ≤ target) × HasRings same s

  first_fit-Fits :
      (f : ℕ → Shape A → Shape A)
      → ((n : ℕ) (s : Shape A) → HasRings same s → HasRings same (f n s))
      → (ns : List ℕ) (s : Shape A) → HasRings same s
      → Fits (first_fit same round size target f ns s).0
        × HasRings same (first_fit same round size target f ns s).1
  unfolding first_fit
  first_fit-Fits f keeps [] s h = (tt, h)
  first_fit-Fits f keeps (n ∷ ns) s h = elim (Bool-cases (leb (size (f n s)) target)) [
    | inl e ↦ rw e ((ground (arith, e), keeps n s h), keeps n s h)
    | inr e ↦ rw e (first_fit-Fits f keeps ns (f n s) (keeps n s h))
  ]

  or_thinned-Fits :
      (found : Option (Shape A) × Shape A)
      → Fits found.0
      → HasRings same found.1
      → Fits (or_thinned same round size target found)
  or_thinned-Fits (some s, last) fits h = fits
  or_thinned-Fits (none, last) fits h =
      (first_fit-Fits (thin_geom same) thin_geom-HasRings (2 ∷ 4 ∷ 8 ∷ 16 ∷ []) last h).0

  of_found :
      (o : Option (Shape A)) (g : Shape A)
      → Fits o
      → o ≡ some g
      → (size g ≤ target) × HasRings same g
  of_found o g fits h = subst Fits h fits

  -- If a geometry is simplified for the queue at all, it fits, and its rings are closed and have at least four
  -- points as those of the original had: rounding keeps equal points equal.
  pub simplify_geom-HasRings :
      (s g : Shape A)
      → HasRings same s
      → simplify_geom same round size target s ≡ some g
      → (size g ≤ target) × HasRings same g
  unfolding simplify_geom
  simplify_geom-HasRings s g h found = elim (Bool-cases (is_blank s)) [
    | inl e ↦ let no : Option.none ≡ some g = rw e at found in cc
    | inr e ↦
        let (fits, kept) =
          first_fit-Fits (λ d. round_shape (round d)) round_shape-HasRings (5 ∷ 4 ∷ 3 ∷ []) s h in
        of_found _ g (or_thinned-Fits _ fits kept) (rw e at found)
  ]
