-- ===== src/Interpolation/Brackets/Sorted.antt =====
-- shared/interpolation.py: the sorted and the filtered house numbers.
use geocoder_fwd.Prelude.{
  ◌≤◌, ◌≡◌, Bool, true, false, List, [], ◌∷◌, leb, filter, All, All-map, arith, Bool-cases, inl,
  inr,
}
use geocoder_fwd.Interpolation.{Address}
use geocoder_fwd.Interpolation.Brackets.{insert_by_number, sort_by_number}

module _ {F : Type 0} where
  abbrev pub IsSorted : List (Address F) → Type 0
  IsSorted [] = Unit
  IsSorted (a ∷ rest) = All (λ b. a.0 ≤ b.0) rest × IsSorted rest

  module _ (P : Address F → Type 0) where
    insert_by_number-All :
        (a : Address F) (bs : List (Address F)) → P a → All P bs → All P (insert_by_number a bs)
    insert_by_number-All a [] p h = (p, tt)
    insert_by_number-All a (b ∷ bs) p (q, h) = elim (Bool-cases (leb a.0 b.0)) [
      | inl e ↦ rw (e, All) (p, (q, h))
      | inr e ↦ rw (e, All) (q, insert_by_number-All a bs p h)
    ]

    All-of_insert :
        (a : Address F) (bs : List (Address F)) → All P (insert_by_number a bs) → P a × All P bs
    All-of_insert a [] h = h
    All-of_insert a (b ∷ bs) h = elim (Bool-cases (leb a.0 b.0)) [
      | inl e ↦ rw (e, All) at h
      | inr e ↦
          let (q, rest) : P b × All P (insert_by_number a bs) = rw (e, All) at h in
          let (p, others) = All-of_insert a bs rest in (p, (q, others))
    ]

    -- What holds of the sorted list holds of the list.
    pub All-of_sort : (parsed : List (Address F)) → All P (sort_by_number parsed) → All P parsed
    unfolding sort_by_number
    All-of_sort [] h = tt
    All-of_sort (a ∷ rest) h =
        let (p, others) = All-of_insert a (sort_by_number rest) h in (p, All-of_sort rest others)

    pub All-of_filter :
        (keep : Address F → Bool) (parsed : List (Address F))
        → All P (filter keep parsed)
        → All (λ a. keep a ≡ true → P a) parsed
    All-of_filter keep [] h = tt
    All-of_filter keep (a ∷ rest) h = elim (Bool-cases (keep a)) [
      | inl e ↦
          let (p, others) : P a × All P (filter keep rest) = rw (e, All) at h in
          ((λ _. p), All-of_filter keep rest others)
      | inr e ↦ ((λ kept. let no : true ≡ false = cc in cc), All-of_filter keep rest (rw e at h))
    ]

  insert_by_number-IsSorted :
      (a : Address F) (bs : List (Address F)) → IsSorted bs → IsSorted (insert_by_number a bs)
  insert_by_number-IsSorted a [] h = (tt, tt)
  insert_by_number-IsSorted a (b ∷ bs) (least, sorted) = elim (Bool-cases (leb a.0 b.0)) [
    | inl e ↦
        let le : a.0 ≤ b.0 = ground (arith, e) in
        rw (e, IsSorted)
          (
            (le, All-map (λ c. b.0 ≤ c.0) (λ c. a.0 ≤ c.0) (λ c h. omega (arith, le, h)) bs least),
            (least, sorted),
          )
    | inr e ↦
        rw (e, IsSorted)
          (
            insert_by_number-All (λ c. b.0 ≤ c.0) a bs (ground (arith, e)) least,
            insert_by_number-IsSorted a bs sorted,
          )
  ]

  pub sort_by_number-IsSorted : (parsed : List (Address F)) → IsSorted (sort_by_number parsed)
  unfolding sort_by_number
  sort_by_number-IsSorted [] = tt
  sort_by_number-IsSorted (a ∷ rest) =
      insert_by_number-IsSorted a (sort_by_number rest) (sort_by_number-IsSorted rest)
