-- ===== src/Geometry/Closed.antt =====
-- services/watcher.py, `_assemble_rings`: the rings are closed, and made of the points of the ways.
use geocoder_fwd.Prelude.{
  ℕ, zero, suc, ◌≤◌, ◌≡◌, refl, sym, ap, ◌∙◌, Bool, true, Option, some, List, [], ◌∷◌, ◌++◌, length,
  leb, Bool-cases, Option-cases, inl, inr, arith, All, All-append,
}
use geocoder_fwd.Geometry.{
  Line, points, last, last_of, turned, reversed, extend, before, prepend, is_closed, join, or_later,
  join_first, chain, close, kept, assemble, assemble_rings,
}

module _ {A : Type 0} where
  last_of-snoc : (x : A) (xs : List A) (y : A) → last_of x (xs ++ (y ∷ [])) ≡ y
  last_of-snoc x [] y = refl
  last_of-snoc x (z ∷ xs) y = last_of-snoc z xs y

  module _ (P : A → Type 0) where
    abbrev pub Holds : Line A → Type 0
    Holds l = P l.first × All P l.rest

    turned-Holds : (x : A) (xs acc : List A) → P x → All P xs → All P acc → Holds (turned x xs acc)
    turned-Holds x [] acc h all done = (h, done)
    turned-Holds x (y ∷ ys) acc h (k, all) done = turned-Holds y ys (x ∷ acc) k all (h, done)

    before-Holds :
        (x : A) (xs : List A) (ring : Line A)
        → P x
        → All P xs
        → Holds ring
        → Holds (before x xs ring)
    before-Holds x [] ring h all done = done
    before-Holds x (y ∷ ys) ring h (k, all) done = (h, before-Holds y ys ring k all done)

    reversed-Holds : (way : Line A) → Holds way → Holds (reversed way)
    reversed-Holds way (h, all) = turned-Holds way.first way.rest [] h all tt

    extend-Holds : (ring way : Line A) → Holds ring → Holds way → Holds (extend ring way)
    extend-Holds ring way (h, all) (k, more) = (h, All-append P ring.rest way.rest all more)

    prepend-Holds : (way ring : Line A) → Holds way → Holds ring → Holds (prepend way ring)
    prepend-Holds way ring (h, all) done = before-Holds way.first way.rest ring h all done

module _ {A : Type 0} (same : A → A → Bool) (P : A → Type 0) where
  join-Holds :
      (ring way ring' : Line A)
      → Holds P ring
      → Holds P way
      → join same ring way ≡ some ring'
      → Holds P ring'
  unfolding join
  join-Holds ring way ring' h k e = elim (Bool-cases (same way.first (last ring))) [
    | inl a ↦
        let eq : some (extend ring way) ≡ some ring' = rw a at e in
        let eq' : extend ring way ≡ ring' = cc in rw (sym eq') (extend-Holds P ring way h k)
    | inr a ↦ elim (Bool-cases (same (last way) (last ring))) [
      | inl b ↦
          let eq : some (extend ring (reversed way)) ≡ some ring' = rw (a, b) at e in
          let eq' : extend ring (reversed way) ≡ ring' = cc in
          rw (sym eq') (extend-Holds P ring (reversed way) h (reversed-Holds P way k))
      | inr b ↦ elim (Bool-cases (same (last way) ring.first)) [
        | inl c ↦
            let eq : some (prepend way ring) ≡ some ring' = rw (a, b, c) at e in
            let eq' : prepend way ring ≡ ring' = cc in rw (sym eq') (prepend-Holds P way ring k h)
        | inr c ↦ elim (Bool-cases (same way.first ring.first)) [
          | inl d ↦
              let eq : some (prepend (reversed way) ring) ≡ some ring' = rw (a, b, c, d) at e in
              let eq' : prepend (reversed way) ring ≡ ring' = cc in
              rw (sym eq') (prepend-Holds P (reversed way) ring (reversed-Holds P way k) h)
          | inr d ↦ let no : Option.none ≡ some ring' = rw (a, b, c, d) at e in cc
        ]
      ]
    ]
  ]

  join_first-Holds :
      (ring ring' : Line A) (ways others : List (Line A))
      → Holds P ring
      → All (Holds P) ways
      → join_first same ring ways ≡ some (ring', others)
      → Holds P ring' × All (Holds P) others
  unfolding join_first
  join_first-Holds ring ring' [] others h all e = cc
  join_first-Holds ring ring' (way ∷ ways) others h (good, all) e =
      elim (Option-cases (join same ring way)) [
        | inr (r, a) ↦
            let found : some (r, ways) ≡ some (ring', others) = rw (a, or_later) at e in
            let eq : r ≡ ring' = cc in
            let eq' : ways ≡ others = cc in
            (rw (sym eq) (join-Holds ring way r h good a), rw (sym eq') all)
        | inl a ↦ elim (Option-cases (join_first same ring ways)) [
          | inl g ↦
              let no : Option.none ≡ some (ring', others) = rw (a, or_later) at (rw g at e) in cc
          | inr ((r, rest), g) ↦
              let found : some (r, way ∷ rest) ≡ some (ring', others) =
                rw (a, or_later) at (rw g at e) in
              let eq : r ≡ ring' = cc in
              let eq' : way ∷ rest ≡ others = cc in
              let (k, more) = join_first-Holds ring r ways rest h all g in
              (rw (sym eq) k, rw (sym eq') (good, more))
        ]
      ]

  chain-Holds :
      (n : ℕ) (ring : Line A) (remaining : List (Line A))
      → Holds P ring
      → All (Holds P) remaining
      → Holds P (chain same n ring remaining).0 × All (Holds P) (chain same n ring remaining).1
  unfolding chain
  chain-Holds zero ring remaining h all = (h, all)
  chain-Holds (suc n) ring remaining h all = elim (Bool-cases (is_closed same ring)) [
    | inl e ↦ rw e (h, all)
    | inr e ↦ elim (Option-cases (join_first same ring remaining)) [
      | inl f ↦ rw (e, f) (h, all)
      | inr ((ring', others), f) ↦
          let (k, more) = join_first-Holds ring ring' remaining others h all f in
          rw (e, f) (chain-Holds n ring' others k more)
    ]
  ]

  -- A ring, as it goes to the index.
  abbrev pub IsRing : Line A → Type 0
  IsRing l = (is_closed same l ≡ true) × (4 ≤ length (points l)) × Holds P l

  close-Holds :
      (refl_same : (x : A) → same x x ≡ true) (ring : Line A)
      → Holds P ring
      → (is_closed same (close same ring) ≡ true) × Holds P (close same ring)
  unfolding close
  close-Holds refl_same ring (h, all) = elim (Bool-cases (is_closed same ring)) [
    | inl e ↦ rw e (e, (h, all))
    | inr e ↦ rw e (
      ap (same ring.first) (last_of-snoc ring.first ring.rest ring.first) ∙ refl_same ring.first,
      (h, All-append P ring.rest (ring.first ∷ []) all (h, tt)),
    )
  ]

  kept-IsRing :
      (ring : Line A) (rings : List (Line A))
      → is_closed same ring ≡ true
      → Holds P ring
      → All IsRing rings
      → All IsRing (kept same ring rings)
  kept-IsRing ring rings closed h all = elim (Bool-cases (leb 4 (length (points ring)))) [
    | inl e ↦ rw (e, All) ((closed, ground (arith, e), h), all)
    | inr e ↦ rw e all
  ]

  assemble-IsRing :
      (refl_same : (x : A) → same x x ≡ true) (n : ℕ) (ways : List (Line A))
      → All (Holds P) ways
      → All IsRing (assemble same n ways)
  unfolding assemble
  assemble-IsRing refl_same zero ways all = tt
  assemble-IsRing refl_same (suc n) [] all = tt
  assemble-IsRing refl_same (suc n) (way ∷ ways) (good, all) =
      let (ring, others) = chain same (length ways) way ways in
      let (h, more) = chain-Holds (length ways) way ways good all in
      let (closed, k) = close-Holds refl_same ring h in
      kept-IsRing (close same ring) (assemble same n others) closed k
        (assemble-IsRing refl_same n others more)

  -- Each ring that is assembled ends where it begins, has at least four points, and is made of points of the
  -- ways, if every point equals itself.
  pub assemble_rings-IsRing :
      (refl_same : (x : A) → same x x ≡ true) (ways : List (Line A))
      → All (Holds P) ways
      → All IsRing (assemble_rings same ways)
  unfolding assemble_rings
  assemble_rings-IsRing refl_same ways all = assemble-IsRing refl_same (length ways) ways all
