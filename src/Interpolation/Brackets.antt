-- ===== src/Interpolation/Brackets.antt =====
-- shared/interpolation.py, `interpolate_address`: the exact match and the two neighbours.
pub mod Sorted
pub mod Laws
use geocoder_fwd.Prelude.{
  ℕ, ◌≤◌, ◌<◌, ◌≡◌, refl, Bool, true, false, ◌&&◌, Option, none, some, List, [], ◌∷◌, ◌==◌, leb,
  ltb, if◌then◌else◌, filter, All, arith, Bool-cases, Option-cases, inl, inr, find_where,
}
use geocoder_fwd.Interpolation.{Address, Row, Parity, parity, parity_eq}

module _ {F : Type 0} where
  -- `sorted(..., key=lambda x: x[0])`, which keeps the order of equal numbers.
  abbrev pub insert_by_number : Address F → List (Address F) → List (Address F)
  insert_by_number a [] = a ∷ []
  insert_by_number a (b ∷ bs) =
      let rest = insert_by_number a bs in if leb a.0 b.0 then a ∷ b ∷ bs else b ∷ rest

  unfoldable pub sort_by_number : List (Address F) → List (Address F)
  sort_by_number [] = []
  sort_by_number (a ∷ rest) = insert_by_number a (sort_by_number rest)

  -- The loop over one side: the last below, and the first above, where it stops.
  unfoldable pub neighbours :
      ℕ → Option (Address F) → List (Address F) → Option (Address F) × Option (Address F)
  neighbours n lower [] = (lower, none)
  neighbours n lower (a ∷ rest) =
      let below = neighbours n (some a) rest in
      let same = neighbours n lower rest in
      if ltb a.0 n then below else if ltb n a.0 then (lower, some a) else same

  -- The loop for the lower neighbour among all, which stops at the first number not below.
  unfoldable pub lower_of_all : ℕ → Option (Address F) → List (Address F) → Option (Address F)
  lower_of_all n lower [] = lower
  lower_of_all n lower (a ∷ rest) =
      let below = lower_of_all n (some a) rest in if ltb a.0 n then below else lower

  unfoldable pub upper_of_all : ℕ → List (Address F) → Option (Address F)
  upper_of_all n [] = none
  upper_of_all n (a ∷ rest) = let next = upper_of_all n rest in if ltb n a.0 then some a else next

  abbrev pub or_else : Option (Address F) → Option (Address F) → Option (Address F)
  or_else none other = other
  or_else (some a) other = some a

  abbrev pub on_side : ℕ → Address F → Bool
  on_side n a = parity_eq (parity a.0) (parity n)

  -- Step 3.
  unfoldable pub brackets : ℕ → List (Address F) → Option (Address F) × Option (Address F)
  brackets n parsed =
      let side = neighbours n none (sort_by_number (filter (on_side n) parsed)) in
      let all_sorted = sort_by_number parsed in
      (or_else side.0 (lower_of_all n none all_sorted), or_else side.1 (upper_of_all n all_sorted))

  unfoldable pub exact_match : ℕ → List (Address F) → Option (Address F)
  exact_match n parsed = find_where (λ a. a.0 == n) parsed
