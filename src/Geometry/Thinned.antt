-- ===== src/Geometry/Thinned.antt =====
-- services/watcher.py and services/es_inserter.py, `_thin_ring`: what stays of a ring.
use geocoder_fwd.Prelude.{
  ℕ, ◌-◌, ◌≤◌, ◌≡◌, refl, ap, ◌∙◌, Bool, true, false, List, [], ◌∷◌, ◌++◌, length, leb, ltb, take,
  Bool-cases, inl, inr, arith,
}
use geocoder_fwd.Geometry.{
  Line, points, last, last_of, is_closed, close, every_nth, stepped, thin_closed, with_last,
  thin_ends,
}

module _ {A : Type 0} (same : A → A → Bool) where
  abbrev pub IsThinned : Line A → Line A → Type 0
  IsThinned ring thinned =
      (thinned.first ≡ ring.first)
      × (same (last thinned) (last ring) ≡ true)
      × (4 ≤ length (points thinned))

module _ {A : Type 0} (same : A → A → Bool) (refl_same : (x : A) → same x x ≡ true) where
  end_of-snoc : (x : A) (xs : List A) (y : A) → last_of x (xs ++ (y ∷ [])) ≡ y
  end_of-snoc x [] y = refl
  end_of-snoc x (z ∷ xs) y = end_of-snoc z xs y

  close-is_closed : (ring : Line A) → is_closed same (close same ring) ≡ true
  unfolding close
  close-is_closed ring = elim (Bool-cases (is_closed same ring)) [
    | inl e ↦ rw e e
    | inr e ↦
        rw e (
          ap (same ring.first) (end_of-snoc ring.first ring.rest ring.first) ∙ refl_same ring.first)
  ]

  -- Thinning a closed ring of at least four points for the queue gives such a ring again, with any stride.
  pub thin_closed-is_closed :
      (stride : ℕ) (ring : Line A)
      → is_closed same ring ≡ true
      → 4 ≤ length (points ring)
      → (is_closed same (thin_closed same stride ring) ≡ true)
        × (4 ≤ length (points (thin_closed same stride ring)))
  unfolding thin_closed
  thin_closed-is_closed stride ring closed long =
      let enough : ltb (length (points ring)) 4 ≡ false = ground (arith, long) in
      elim (Bool-cases (leb 4 (length (points (close same (stepped stride ring)))))) [
        | inl e ↦ rw (enough, e) (close-is_closed (stepped stride ring), ground (arith, e))
        | inr e ↦ rw (enough, e) (closed, long)
      ]

  with_last-last : (end : A) (l : Line A) → same (last (with_last same end l)) end ≡ true
  with_last-last end l = elim (Bool-cases (same (last l) end)) [
    | inl e ↦ rw e e
    | inr e ↦ rw e (ap (λ x. same x end) (end_of-snoc l.first l.rest end) ∙ refl_same end)
  ]

  with_last-first : (end : A) (l : Line A) → (with_last same end l).first ≡ l.first
  with_last-first end l = elim (Bool-cases (same (last l) end)) [
    | inl e ↦ rw e refl
    | inr e ↦ rw e refl
  ]

  short_ring-length : (xs : List A) (y : A) → 3 ≤ length xs → length (take 2 xs ++ (y ∷ [])) ≡ 3
  short_ring-length [] y h = omega arith
  short_ring-length (a ∷ []) y h = omega arith
  short_ring-length (a ∷ b ∷ xs) y h = omega arith

  -- Thinning a line of at least four points for the index keeps its first point and its last, and leaves at
  -- least four, whatever share of the points is kept.
  thin_ends-last :
      (keep_every : ℕ) (ring : Line A)
      → 4 ≤ length (points ring)
      → IsThinned same ring (thin_ends same keep_every ring)
  unfolding thin_ends
  thin_ends-last keep_every ring long =
      let inner : Line A = record ring {
        rest = every_nth keep_every (keep_every - 1) (take (length ring.rest - 1) ring.rest);
      } in
      let thinned : Line A = with_last same (last ring) inner in
      elim (Bool-cases (leb (length (points ring)) 4)) [
        | inl e ↦ rw e (refl, refl_same (last ring), long)
        | inr e ↦ elim (Bool-cases (ltb (length (points thinned)) 4)) [
          | inl f ↦
              let many : 3 ≤ length ring.rest = omega (arith, long) in
              let short = short_ring-length ring.rest (last ring) many in
              rw (e, f)
                (
                  refl,
                  ap (λ x. same x (last ring))
                        (end_of-snoc ring.first (take 2 ring.rest) (last ring))
                      ∙ refl_same (last ring),
                  omega (arith, short),
                )
          | inr f ↦
              rw (e, f)
                (
                  with_last-first (last ring) inner,
                  with_last-last (last ring) inner,
                  ground (arith, f),
                )
        ]
      ]
