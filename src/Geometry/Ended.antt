-- ===== src/Geometry/Ended.antt =====
-- services/watcher.py, `_assemble_rings`: its loops end.
use geocoder_fwd.Prelude.{
  ℕ, zero, suc, ◌≤◌, ◌≡◌, ◌⊎◌, refl, sym, ap, ◌∙◌, Bool, true, Option, none, some, List, [], ◌∷◌,
  length, Bool-cases, Option-cases, inl, inr, arith,
}
use geocoder_fwd.Geometry.{
  Line, is_closed, join, or_later, join_first, chain, close, kept, assemble, assemble_rings,
}

module _ {A : Type 0} (same : A → A → Bool) where
  join_first-length :
      (ring ring' : Line A) (ways others : List (Line A))
      → join_first same ring ways ≡ some (ring', others)
      → suc (length others) ≡ length ways
  unfolding join_first
  join_first-length ring ring' [] others h = cc
  join_first-length ring ring' (way ∷ ways) others h = elim (Option-cases (join same ring way)) [
    | inr (r, e) ↦
        let found : some (r, ways) ≡ some (ring', others) = rw (e, or_later) at h in
        let eq : ways ≡ others = cc in ap (λ (ws : List (Line A)). suc (length ws)) (sym eq)
    | inl e ↦ elim (Option-cases (join_first same ring ways)) [
      | inl g ↦ let no : Option.none ≡ some (ring', others) = rw (e, or_later) at (rw g at h) in cc
      | inr ((r, rest), g) ↦
          let found : some (r, way ∷ rest) ≡ some (ring', others) =
            rw (e, or_later) at (rw g at h) in
          let eq : way ∷ rest ≡ others = cc in
          ap (λ (ws : List (Line A)). suc (length ws)) (sym eq)
          ∙ ap suc (join_first-length ring r ways rest g)
    ]
  ]

  -- The inner loop stops where its condition fails: the ring is closed, or no way fits.
  abbrev pub IsStuck : Line A → List (Line A) → Type 0
  IsStuck ring remaining = (is_closed same ring ≡ true) ⊎ (join_first same ring remaining ≡ none)

  pub chain-IsStuck :
      (n : ℕ) (ring : Line A) (remaining : List (Line A))
      → length remaining ≤ n
      → IsStuck (chain same n ring remaining).0 (chain same n ring remaining).1
        × (length (chain same n ring remaining).1 ≤ length remaining)
  unfolding chain join_first
  chain-IsStuck zero ring [] h = (inr refl, omega arith)
  chain-IsStuck zero ring (way ∷ ways) h = absurd (omega arith)
  chain-IsStuck (suc n) ring remaining h = elim (Bool-cases (is_closed same ring)) [
    | inl e ↦ rw e (inl e, omega arith)
    | inr e ↦ elim (Option-cases (join_first same ring remaining)) [
      | inl f ↦ rw (e, f) (inr f, omega arith)
      | inr ((ring', others), f) ↦
          let shorter = join_first-length ring ring' remaining others f in
          let fits : length others ≤ n = omega arith in
          let (stuck, less) = chain-IsStuck n ring' others fits in rw (e, f) (stuck, omega arith)
    ]
  ]

  -- More fuel than there are ways changes nothing.
  assemble_more :
      (n m : ℕ) (ways : List (Line A))
      → length ways ≤ n
      → length ways ≤ m
      → assemble same n ways ≡ assemble same m ways
  unfolding assemble
  assemble_more zero zero ways h k = refl
  assemble_more zero (suc m) [] h k = refl
  assemble_more zero (suc m) (way ∷ ways) h k = absurd (omega arith)
  assemble_more (suc n) zero [] h k = refl
  assemble_more (suc n) zero (way ∷ ways) h k = absurd (omega arith)
  assemble_more (suc n) (suc m) [] h k = refl
  assemble_more (suc n) (suc m) (way ∷ ways) h k =
      let (ring, others) = chain same (length ways) way ways in
      let less = (chain-IsStuck (length ways) way ways (omega arith)).1 in
      ap (kept same (close same ring)) (assemble_more n m others (omega arith) (omega arith))

  -- The rings are those of the loops run to their ends: with any fuel of at least the number of ways, the
  -- inner loop stops where its condition fails and the outer one gives the same rings.
  pub assemble_rings-assemble :
      (n : ℕ) (ring : Line A) (ways : List (Line A))
      → length ways ≤ n
      → (assemble same n ways ≡ assemble_rings same ways)
        × IsStuck (chain same n ring ways).0 (chain same n ring ways).1
  unfolding assemble_rings
  assemble_rings-assemble n ring ways h =
      (assemble_more n (length ways) ways h (omega arith), (chain-IsStuck n ring ways h).0)
