-- ===== src/Interpolation/Line.antt =====
-- shared/interpolation.py: distances, clusters and street lines, over the floats of Python.
use geocoder_fwd.Prelude.{
  ℕ, Bool, true, ◌||◌, Option, none, some, List, [], ◌∷◌, if◌then◌else◌, filter,
}
use geocoder_fwd.Prelude.Int.{ℤ, pos}
use geocoder_fwd.Interpolation.{Address}

-- The operations of `float` and of `math` that the code calls. `decimal m k` is the literal `m / 10 ** k`,
-- `sqrt` is `math.sqrt` and `** 0.5`.
pub record Floats (F : Type 0) : Type 0 where
  pub add : F → F → F
  pub sub : F → F → F
  pub mul : F → F → F
  pub div : F → F → F
  pub lit : ℤ → F
  pub decimal : ℕ → ℕ → F
  pub lt : F → F → Bool
  pub eq : F → F → Bool
  pub abs : F → F
  pub sqrt : F → F
  pub sin : F → F
  pub cos : F → F
  pub asin : F → F
  pub radians : F → F
  pub round : F → ℤ
  pub round_to : F → ℕ → F

abbrev pub Point : Type 0 → Type 0
Point F = F × F

module _ {F : Type 0} (m : Floats F) where
  abbrev pub nat : ℕ → F
  nat n = m.lit (pos n)

  abbrev pub zero_f : F
  zero_f = nat 0

  abbrev pub square : F → F
  square x = m.mul x x

  -- `a <= b` for floats that are numbers.
  abbrev pub le : F → F → Bool
  le a b = m.lt a b || m.eq a b

  -- `max(0.0, min(1.0, x))`
  abbrev pub clamp : F → F
  clamp x =
      let small : F = if m.lt x (nat 1) then x else nat 1 in
      if m.lt zero_f small then small else zero_f

  unfoldable pub haversine_m : F → F → F → F → F
  haversine_m lat1 lon1 lat2 lon2 =
      let p1 : F = m.radians lat1 in
      let p2 : F = m.radians lat2 in
      let dp : F = m.radians (m.sub lat2 lat1) in
      let dl : F = m.radians (m.sub lon2 lon1) in
      let h : F =
        m.add (square (m.sin (m.div dp (nat 2))))
          (m.mul (m.mul (m.cos p1) (m.cos p2)) (square (m.sin (m.div dl (nat 2))))) in
      m.mul (m.mul (nat 2) (nat 6371000)) (m.asin (m.sqrt h))

  -- `min(parsed, key=...)`: the first of the nearest.
  abbrev pub nearest_to : Point F → Address F → List (Address F) → Address F
  nearest_to near best [] = best
  nearest_to near best (a ∷ rest) =
      let closer = nearest_to near a rest in
      let same = nearest_to near best rest in
      if m.lt (haversine_m near.0 near.1 a.1.lat a.1.lon)
        (haversine_m near.0 near.1 best.1.lat best.1.lon)
      then closer
      else same

  -- `clustered or parsed`
  abbrev pub or_all : List (Address F) → List (Address F) → List (Address F)
  or_all [] parsed = parsed
  or_all (a ∷ clustered) parsed = a ∷ clustered

  abbrev pub around : Address F → F → List (Address F) → List (Address F)
  around anchor cluster_m =
      filter (λ a. le (haversine_m anchor.1.lat anchor.1.lon a.1.lat a.1.lon) cluster_m)

  -- `min` of nothing raises an error; the caller has two addresses or more.
  unfoldable pub nearest_cluster : List (Address F) → Point F → F → List (Address F)
  nearest_cluster [] near cluster_m = []
  nearest_cluster (a ∷ rest) near cluster_m =
      or_all (around (nearest_to near a rest) cluster_m (a ∷ rest)) (a ∷ rest)

  unfoldable pub lerp : F → F → F → F → F → Point F
  lerp lat1 lon1 lat2 lon2 t =
      (m.add lat1 (m.mul t (m.sub lat2 lat1)), m.add lon1 (m.mul t (m.sub lon2 lon1)))

  -- A coordinate is a pair of longitude and latitude.
  abbrev pub segment_length : Point F → Point F → F
  segment_length p q = m.sqrt (m.add (square (m.sub q.0 p.0)) (square (m.sub q.1 p.1)))

  -- `total_len`, from the length of the segments before.
  abbrev pub line_length : F → List (Point F) → F
  line_length total [] = total
  line_length total (p ∷ []) = total
  line_length total (p ∷ q ∷ line) = line_length (m.add total (segment_length p q)) (q ∷ line)

  -- The nearest place so far: its squared distance, none at first, the place, and its fraction.
  pub record Best : Type 0 where
    pub dist_sq : Option F
    pub lat : F
    pub lon : F
    pub frac : F

  abbrev pub is_closer : F → Option F → Bool
  is_closer d none = true
  is_closer d (some best) = m.lt d best

  -- One segment from `p` to `q`; `start` is the length before it.
  abbrev pub project_segment : F → F → F → F → Point F → Point F → Best → Best
  project_segment lat lon total start p q best =
      let dx : F = m.sub q.0 p.0 in
      let dy : F = m.sub q.1 p.1 in
      let seg_len_sq : F = m.add (m.mul dx dx) (m.mul dy dy) in
      let t : F =
        if m.eq seg_len_sq zero_f
        then zero_f
        else clamp
            (m.div (m.add (m.mul (m.sub lon p.0) dx) (m.mul (m.sub lat p.1) dy)) seg_len_sq) in
      let px : F = m.add p.0 (m.mul t dx) in
      let py : F = m.add p.1 (m.mul t dy) in
      let dist_sq : F = m.add (square (m.sub lon px)) (square (m.sub lat py)) in
      if is_closer dist_sq best.dist_sq
      then record {
        dist_sq = some dist_sq;
        lat = py;
        lon = px;
        frac = m.div (m.add start (m.mul t (segment_length p q))) total;
      }
      else best

  abbrev pub project_all : F → F → F → F → List (Point F) → Best → Best
  project_all lat lon total start [] best = best
  project_all lat lon total start (p ∷ []) best = best
  project_all lat lon total start (p ∷ q ∷ line) best =
      project_all lat lon total (m.add start (segment_length p q)) (q ∷ line)
        (project_segment lat lon total start p q best)

  unfoldable pub project_onto_line : F → F → List (Point F) → Point F × F
  project_onto_line lat lon line =
      let total : F = line_length zero_f line in
      let start : Best = record { dist_sq = none; lat = lat; lon = lon; frac = zero_f } in
      let best : Best = project_all lat lon total zero_f line start in
      if m.eq total zero_f then ((lat, lon), zero_f) else ((best.lat, best.lon), best.frac)

  -- The walk along the line; at its end, its last point.
  abbrev pub walk : F → F → Point F → List (Point F) → Point F
  walk target cumulative p [] = (p.1, p.0)
  walk target cumulative p (q ∷ line) =
      let seg_len : F = segment_length p q in
      let t : F = if m.eq seg_len zero_f then zero_f else m.div (m.sub target cumulative) seg_len in
      let further : Point F = walk target (m.add cumulative seg_len) q line in
      if le target (m.add cumulative seg_len)
      then (m.add p.1 (m.mul t (m.sub q.1 p.1)), m.add p.0 (m.mul t (m.sub q.0 p.0)))
      else further

  -- A latitude and a longitude; `none` where a line without points raises an error.
  unfoldable pub point_at_fraction : List (Point F) → F → Option (Point F)
  point_at_fraction [] frac = none
  point_at_fraction (p ∷ line) frac =
      let total : F = line_length zero_f (p ∷ line) in
      if m.eq total zero_f
      then some (p.1, p.0)
      else some (walk (m.mul (clamp frac) total) zero_f p line)
