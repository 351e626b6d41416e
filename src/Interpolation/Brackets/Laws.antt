-- ===== src/Interpolation/Brackets/Laws.antt =====
-- shared/interpolation.py: how near the neighbours of a house number are.
use geocoder_fwd.Prelude.{
  ℕ, ◌≤◌, ◌<◌, ◌≡◌, refl, true, Option, none, some, List, [], ◌∷◌, ltb, filter, All, All-map, arith,
  Bool-cases, inl, inr,
}
use geocoder_fwd.Interpolation.{Address}
use geocoder_fwd.Interpolation.Brackets.{
  sort_by_number, neighbours, lower_of_all, upper_of_all, or_else, on_side, brackets,
}
use geocoder_fwd.Interpolation.Brackets.Sorted.{
  IsSorted, All-of_sort, All-of_filter, sort_by_number-IsSorted,
}

module _ {F : Type 0} where
  abbrev AtLeast : Option (Address F) → ℕ → Type 0
  AtLeast none n = Unit
  AtLeast (some a) n = a.0 ≤ n

  -- The nearest below `n` among the addresses, and the one known before.
  abbrev IsBelow : ℕ → Option (Address F) → List (Address F) → Option (Address F) → Type 0
  IsBelow n known parsed none = (known ≡ none) × All (λ b. n ≤ b.0) parsed
  IsBelow n known parsed (some a) =
      (a.0 < n) × AtLeast known a.0 × All (λ b. b.0 < n → b.0 ≤ a.0) parsed

  abbrev IsAbove : ℕ → List (Address F) → Option (Address F) → Type 0
  IsAbove n parsed none = All (λ b. b.0 ≤ n) parsed
  IsAbove n parsed (some a) = (n < a.0) × All (λ b. n < b.0 → a.0 ≤ b.0) parsed

  -- What is known is below `n`, and not above what comes.
  abbrev IsStart : ℕ → Option (Address F) → List (Address F) → Type 0
  IsStart n none parsed = Unit
  IsStart n (some a) parsed = (a.0 < n) × All (λ b. a.0 ≤ b.0) parsed

  IsBelow-step :
      (n : ℕ) (known : Option (Address F)) (a : Address F) (rest : List (Address F))
      (found : Option (Address F))
      → IsStart n known (a ∷ rest)
      → IsBelow n (some a) rest found
      → IsBelow n known (a ∷ rest) found
  IsBelow-step n none a rest none start (e, h) = cc
  IsBelow-step n (some c) a rest none start (e, h) = cc
  IsBelow-step n none a rest (some b) start (lt, le, h) = (lt, tt, ((λ _. le), h))
  IsBelow-step n (some c) a rest (some b) (_, (first, _)) (lt, le, h) =
      (lt, omega (arith, first, le), ((λ _. le), h))

  -- Nothing below `n` comes any more.
  IsBelow-stop :
      (n : ℕ) (known : Option (Address F)) (parsed : List (Address F))
      → IsStart n known parsed
      → All (λ b. n ≤ b.0) parsed
      → IsBelow n known parsed known
  IsBelow-stop n none parsed start h = (refl, h)
  IsBelow-stop n (some c) parsed (lt, _) h = (
    lt,
    omega arith,
    All-map (λ b. n ≤ b.0) (λ b. b.0 < n → b.0 ≤ c.0) (λ b le lt. omega (arith, le, lt)) parsed h,
  )

  from_here :
      (n : ℕ) (a : Address F) (rest : List (Address F))
      → n ≤ a.0
      → All (λ b. a.0 ≤ b.0) rest
      → All (λ b. n ≤ b.0) (a ∷ rest)
  from_here n a rest le h =
      (le, All-map (λ b. a.0 ≤ b.0) (λ b. n ≤ b.0) (λ b h. omega (arith, le, h)) rest h)

  lower_of_all-IsBelow :
      (n : ℕ) (known : Option (Address F)) (parsed : List (Address F))
      → IsSorted parsed
      → IsStart n known parsed
      → IsBelow n known parsed (lower_of_all n known parsed)
  unfolding lower_of_all
  lower_of_all-IsBelow n known [] sorted start = IsBelow-stop n known [] start tt
  lower_of_all-IsBelow n known (a ∷ rest) (least, sorted) start = elim (Bool-cases (ltb a.0 n)) [
    | inl e ↦ rw e (
        IsBelow-step n known a rest (lower_of_all n (some a) rest) start
          (lower_of_all-IsBelow n (some a) rest sorted (ground (arith, e), least)))
    | inr e ↦
        rw e (IsBelow-stop n known (a ∷ rest) start (from_here n a rest (ground (arith, e)) least))
  ]

  -- A number that is not below `n` may be passed over.
  IsBelow-skip :
      (n : ℕ) (known : Option (Address F)) (a : Address F) (rest : List (Address F))
      (found : Option (Address F))
      → n ≤ a.0
      → IsBelow n known rest found
      → IsBelow n known (a ∷ rest) found
  IsBelow-skip n known a rest none le (e, h) = (e, (le, h))
  IsBelow-skip n known a rest (some b) le (lt, least, h) =
      (lt, least, ((λ lt. omega (arith, le, lt)), h))

  IsStart-rest :
      (n : ℕ) (known : Option (Address F)) (a : Address F) (rest : List (Address F))
      → IsStart n known (a ∷ rest)
      → IsStart n known rest
  IsStart-rest n none a rest start = tt
  IsStart-rest n (some c) a rest (lt, (_, h)) = (lt, h)

  IsAbove-skip :
      (n : ℕ) (a : Address F) (rest : List (Address F)) (found : Option (Address F))
      → a.0 ≤ n
      → IsAbove n rest found
      → IsAbove n (a ∷ rest) found
  IsAbove-skip n a rest none le h = (le, h)
  IsAbove-skip n a rest (some b) le (lt, h) = (lt, ((λ lt. omega (arith, le, lt)), h))

  IsAbove-here :
      (n : ℕ) (a : Address F) (rest : List (Address F))
      → n < a.0
      → All (λ b. a.0 ≤ b.0) rest
      → IsAbove n (a ∷ rest) (some a)
  IsAbove-here n a rest lt least = (
    lt,
    (
      (λ _. omega arith),
      All-map (λ b. a.0 ≤ b.0) (λ b. n < b.0 → a.0 ≤ b.0) (λ b le _. le) rest least,
    ),
  )

  upper_of_all-IsAbove :
      (n : ℕ) (parsed : List (Address F))
      → IsSorted parsed
      → IsAbove n parsed (upper_of_all n parsed)
  unfolding upper_of_all
  upper_of_all-IsAbove n [] sorted = tt
  upper_of_all-IsAbove n (a ∷ rest) (least, sorted) = elim (Bool-cases (ltb n a.0)) [
    | inl e ↦ rw e (IsAbove-here n a rest (ground (arith, e)) least)
    | inr e ↦ rw e (
        IsAbove-skip n a rest (upper_of_all n rest) (ground (arith, e))
          (upper_of_all-IsAbove n rest sorted))
  ]

  neighbours_lem :
      (n : ℕ) (known : Option (Address F)) (parsed : List (Address F))
      → IsSorted parsed
      → IsStart n known parsed
      → IsBelow n known parsed (neighbours n known parsed).0
        × IsAbove n parsed (neighbours n known parsed).1
  unfolding neighbours
  neighbours_lem n known [] sorted start = (IsBelow-stop n known [] start tt, tt)
  neighbours_lem n known (a ∷ rest) (least, sorted) start = elim (Bool-cases (ltb a.0 n)) [
    | inl e ↦
        let lt : a.0 < n = ground (arith, e) in
        let (below, above) = neighbours_lem n (some a) rest sorted (lt, least) in
        rw e (
          IsBelow-step n known a rest (neighbours n (some a) rest).0 start below,
          IsAbove-skip n a rest (neighbours n (some a) rest).1 (omega (arith, lt)) above,
        )
    | inr e ↦ elim (Bool-cases (ltb n a.0)) [
      | inl f ↦
          rw (e, f)
            (
              IsBelow-stop n known (a ∷ rest) start (from_here n a rest (ground (arith, e)) least),
              IsAbove-here n a rest (ground (arith, f)) least,
            )
      | inr f ↦
          let (below, above) =
            neighbours_lem n known rest sorted (IsStart-rest n known a rest start) in
          rw (e, f)
            (
              IsBelow-skip n known a rest (neighbours n known rest).0 (ground (arith, e)) below,
              IsAbove-skip n a rest (neighbours n known rest).1 (ground (arith, f)) above,
            )
    ]
  ]

  -- The nearest number below among those of the side of `n`, if there is one, and else among all.
  abbrev pub IsLower : ℕ → List (Address F) → Option (Address F) → Type 0
  IsLower n parsed none = All (λ b. n ≤ b.0) parsed
  IsLower n parsed (some a) = (a.0 < n) × All (λ b. on_side n b ≡ true → b.0 < n → b.0 ≤ a.0) parsed

  abbrev pub IsUpper : ℕ → List (Address F) → Option (Address F) → Type 0
  IsUpper n parsed none = All (λ b. b.0 ≤ n) parsed
  IsUpper n parsed (some a) = (n < a.0) × All (λ b. on_side n b ≡ true → n < b.0 → a.0 ≤ b.0) parsed

  IsLower-choice :
      (n : ℕ) (parsed : List (Address F)) (side other : Option (Address F))
      → IsBelow n none (sort_by_number (filter (on_side n) parsed)) side
      → IsBelow n none (sort_by_number parsed) other
      → IsLower n parsed (or_else side other)
  IsLower-choice n parsed (some a) other (lt, _, h) _ = (
    lt,
    All-of_filter (λ b. b.0 < n → b.0 ≤ a.0) (on_side n) parsed
        (All-of_sort (λ b. b.0 < n → b.0 ≤ a.0) (filter (on_side n) parsed) h),
  )
  IsLower-choice n parsed none none _ (_, h) = All-of_sort (λ b. n ≤ b.0) parsed h
  IsLower-choice n parsed none (some a) _ (lt, _, h) = (
    lt,
    All-map (λ b. b.0 < n → b.0 ≤ a.0) (λ b. on_side n b ≡ true → b.0 < n → b.0 ≤ a.0)
        (λ b le _. le) parsed (All-of_sort (λ b. b.0 < n → b.0 ≤ a.0) parsed h),
  )

  IsUpper-choice :
      (n : ℕ) (parsed : List (Address F)) (side other : Option (Address F))
      → IsAbove n (sort_by_number (filter (on_side n) parsed)) side
      → IsAbove n (sort_by_number parsed) other
      → IsUpper n parsed (or_else side other)
  IsUpper-choice n parsed (some a) other (lt, h) _ = (
    lt,
    All-of_filter (λ b. n < b.0 → a.0 ≤ b.0) (on_side n) parsed
        (All-of_sort (λ b. n < b.0 → a.0 ≤ b.0) (filter (on_side n) parsed) h),
  )
  IsUpper-choice n parsed none none _ h = All-of_sort (λ b. b.0 ≤ n) parsed h
  IsUpper-choice n parsed none (some a) _ (lt, h) = (
    lt,
    All-map (λ b. n < b.0 → a.0 ≤ b.0) (λ b. on_side n b ≡ true → n < b.0 → a.0 ≤ b.0)
        (λ b le _. le) parsed (All-of_sort (λ b. n < b.0 → a.0 ≤ b.0) parsed h),
  )

  -- The lower neighbour of a house number is below it, and no known number of its side of the street
  -- lies between them; without one, no known number is below. The upper neighbour is so from above.
  pub brackets_nearest :
      (n : ℕ) (parsed : List (Address F))
      → IsLower n parsed (brackets n parsed).0 × IsUpper n parsed (brackets n parsed).1
  unfolding brackets
  brackets_nearest n parsed =
      let side =
        neighbours_lem n none (sort_by_number (filter (on_side n) parsed))
          (sort_by_number-IsSorted (filter (on_side n) parsed)) tt in
      let sorted = sort_by_number-IsSorted parsed in
      (
        IsLower-choice n parsed _ _ side.0
            (lower_of_all-IsBelow n none (sort_by_number parsed) sorted tt),
        IsUpper-choice n parsed _ _ side.1 (upper_of_all-IsAbove n (sort_by_number parsed) sorted),
      )
