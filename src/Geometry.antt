-- ===== src/Geometry.antt =====
-- services/watcher.py, `_assemble_rings` and `_thin_ring`, and services/es_inserter.py, `_thin_ring`. A point
-- is of any type with a test of equality, and a way has at least one.
pub mod Ended
pub mod Closed
pub mod Thinned
pub mod Simplified
mod Tests
use geocoder_fwd.Prelude.{
  ℕ, zero, suc, ◌+◌, ◌-◌, Bool, true, false, not, ◌&&◌, Option, none, some, List, [], ◌∷◌, ◌++◌,
  ◌==◌, leb, ltb, if◌then◌else◌, length, take,
}

pub record Line {ℓ} (A : Type ℓ) : Type ℓ where
  pub first : A
  pub rest : List A

module _ {ℓ} {A : Type ℓ} where
  abbrev pub points : Line A → List A
  points l = l.first ∷ l.rest

  abbrev pub last_of : A → List A → A
  last_of x [] = x
  last_of x (y ∷ ys) = last_of y ys

  abbrev pub last : Line A → A
  last l = last_of l.first l.rest

  abbrev pub onto : A → Line A → Line A
  onto x l = record { first = x; rest = points l }

  -- `reversed`, onto what has been turned round already.
  abbrev pub turned : A → List A → List A → Line A
  turned x [] acc = record { first = x; rest = acc }
  turned x (y ∷ ys) acc = turned y ys (x ∷ acc)

  abbrev pub reversed : Line A → Line A
  reversed l = turned l.first l.rest []

  -- `ring + way[1:]`, and `way[:-1] + ring`.
  abbrev pub extend : Line A → Line A → Line A
  extend ring way = record ring { rest = ring.rest ++ way.rest }

  abbrev pub before : A → List A → Line A → Line A
  before x [] ring = ring
  before x (y ∷ ys) ring = onto x (before y ys ring)

  abbrev pub prepend : Line A → Line A → Line A
  prepend way ring = before way.first way.rest ring

  -- `ring[::stride]`, with the number of points to skip before the next.
  abbrev pub every_nth : ℕ → ℕ → List A → List A
  every_nth stride skip [] = []
  every_nth stride zero (x ∷ xs) = x ∷ every_nth stride (stride - 1) xs
  every_nth stride (suc skip) (x ∷ xs) = every_nth stride skip xs

  abbrev pub stepped : ℕ → Line A → Line A
  stepped stride ring = record ring { rest = every_nth stride (stride - 1) ring.rest }

  abbrev pub short_ring : Line A → Line A
  short_ring ring = record ring { rest = take 2 ring.rest ++ (last ring ∷ []) }

module _ {ℓ} {A : Type ℓ} (same : A → A → Bool) where
  abbrev pub is_closed : Line A → Bool
  is_closed l = same l.first (last l)

  -- The way joined to the ring, at whichever end fits first.
  unfoldable pub join : Line A → Line A → Option (Line A)
  join ring way =
      if same way.first (last ring)
      then some (extend ring way)
      else if same (last way) (last ring)
      then some (extend ring (reversed way))
      else if same (last way) ring.first
      then some (prepend way ring)
      else if same way.first ring.first
      then some (prepend (reversed way) ring)
      else none

  -- The first of the ways that fits, and the others.
  abbrev pub or_later :
      Line A
      → List (Line A)
      → Option (Line A)
      → Option (Line A × List (Line A))
      → Option (Line A × List (Line A))
  or_later way ways (some ring) later = some (ring, ways)
  or_later way ways none none = none
  or_later way ways none (some (ring, others)) = some (ring, way ∷ others)

  unfoldable pub join_first : Line A → List (Line A) → Option (Line A × List (Line A))
  unfolding join
  join_first ring [] = none
  join_first ring (way ∷ ways) = or_later way ways (join ring way) (join_first ring ways)

  -- The inner loop, on fuel.
  unfoldable pub chain : ℕ → Line A → List (Line A) → Line A × List (Line A)
  unfolding join_first
  chain zero ring remaining = (ring, remaining)
  chain (suc n) ring remaining =
      if is_closed ring then (ring, remaining) else elim (join_first ring remaining) [
        | none ↦ (ring, remaining)
        | some (ring', others) ↦ chain n ring' others
      ]

  unfoldable pub close : Line A → Line A
  close ring =
      if is_closed ring then ring else record ring { rest = ring.rest ++ (ring.first ∷ []) }

  abbrev pub kept : Line A → List (Line A) → List (Line A)
  kept ring rings = if leb 4 (length (points ring)) then ring ∷ rings else rings

  -- The outer loop, on fuel.
  unfoldable pub assemble : ℕ → List (Line A) → List (Line A)
  unfolding chain close
  assemble zero ways = []
  assemble (suc n) [] = []
  assemble (suc n) (way ∷ ways) =
      let (ring, others) = chain (length ways) way ways in kept (close ring) (assemble n others)

  unfoldable pub assemble_rings : List (Line A) → List (Line A)
  unfolding assemble
  assemble_rings ways = assemble (length ways) ways

  -- `_thin_ring` of services/watcher.py.
  unfoldable pub thin_closed : ℕ → Line A → Line A
  unfolding close
  thin_closed stride ring =
      if ltb (length (points ring)) 4
      then ring
      else (let thinned = close (stepped stride ring) in
          if leb 4 (length (points thinned)) then thinned else ring)

  abbrev pub with_last : A → Line A → Line A
  with_last end l = if same (last l) end then l else record l { rest = l.rest ++ (end ∷ []) }

  -- `_thin_ring` of services/es_inserter.py, for a ring of at least two points where it is longer than 4.
  unfoldable pub thin_ends : ℕ → Line A → Line A
  thin_ends keep_every ring =
      if leb (length (points ring)) 4
      then ring
      else (let thinned = with_last (last ring) (record ring {
        rest = every_nth keep_every (keep_every - 1) (take (length ring.rest - 1) ring.rest);
      }) in
          if ltb (length (points thinned)) 4 then short_ring ring else thinned)
