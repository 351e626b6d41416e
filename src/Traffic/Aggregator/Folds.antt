-- ===== src/Traffic/Aggregator/Folds.antt =====
-- services/traffic_aggregator.py: the observations of an edge, folded by any number of writers at once.
use geocoder_fwd.Prelude.{
  ℕ, suc, ◌+◌, ◌-◌, ◌*◌, ◌≤◌, ◌≡◌, refl, sym, ap, ◌∙◌, true, Option, none, some, List, ◌∷◌, ◌==◌,
  leb, All, All-map, All-append, All-prefix, ◌++◌, arith, Bool-cases, inl, inr,
}
use mathlib.Core.Path.{subst}
use native.Mathlib.Nat.{mul-le-mul_left, add-mul}
use geocoder_fwd.Traffic.Aggregator.{
  Edge, Store, blend, ewma, publish_edge, plausible, alpha_of, published,
}

abbrev SpeedOk : ℕ → Option ℕ → Type 0
SpeedOk bound none = Unit
SpeedOk bound (some kph) = kph ≤ bound

-- A blend of two speeds is no faster than the bound of both.
blend_bound :
    (alpha kph bound : ℕ) (prev : Option ℕ)
    → alpha ≤ 1000
    → kph ≤ bound * 10000
    → SpeedOk bound prev
    → blend alpha kph prev ≤ bound
blend_bound alpha kph bound none small le _ = omega (arith, le)
blend_bound alpha kph bound (some prev) small le h =
    let rest : ℕ = 1000 - alpha in
    let old : rest * (prev * 10000) ≤ rest * (bound * 10000) =
      mul-le-mul_left rest (omega (arith, h)) in
    let new : alpha * kph ≤ alpha * (bound * 10000) = mul-le-mul_left alpha le in
    let whole : rest + alpha ≡ 1000 = omega (arith, small) in
    let total : rest * (bound * 10000) + alpha * (bound * 10000) ≡ 1000 * (bound * 10000) =
      sym (add-mul rest alpha (bound * 10000)) ∙ ap (λ k. k * (bound * 10000)) whole in
    omega (arith, old, new, total)

-- What a fold answered to a writer that has not acted on it yet: the edge, the time and the samples.
abbrev pub Answer : Type 0
Answer = ℕ × ℕ × ℕ

abbrev pub World : Type 0
World = Store × List Answer

module _ (ewma_alpha min_samples : ℕ) where
  -- The writers run at once: the fold of one and its entry in the index are two steps, between which
  -- others may do theirs.
  pub data Step : World → World → Type 0 where
    fold :
        (gid kph weight now : ℕ) (store : Store) (pending : List Answer)
        → plausible kph ≡ true
        → Step
            (store, pending)
            (
              (ewma gid (alpha_of ewma_alpha min_samples weight) kph now store).1,
              (gid, now, (ewma gid (alpha_of ewma_alpha min_samples weight) kph now store).0)
                  ∷ pending,
            )
    enter :
        (gid now n : ℕ) (store : Store) (before later : List Answer)
        → Step
            (store, before ++ ((gid, now, n) ∷ later))
            (published ewma_alpha min_samples gid now (n, store), before ++ later)

  abbrev Gate : Option ℕ → ℕ → Type 0
  Gate none n = Unit
  Gate (some now) n = min_samples ≤ n

  -- Every edge of the index has its samples, no speed is above 300 km/h, and no answer is of more
  -- samples than there are.
  abbrev pub IsSound : World → Type 0
  IsSound (store, pending) =
      ((g : ℕ) → Gate (store.index g) (store.edges g).n × SpeedOk 30000 (store.edges g).kph)
      × All (λ a. a.2 ≤ (store.edges a.0).n) pending

  Gate-up : (o : Option ℕ) (n : ℕ) → Gate o n → Gate o (suc n)
  Gate-up none n h = tt
  Gate-up (some now) n h = omega (arith, h)

  fold_samples :
      (gid alpha kph now : ℕ) (store : Store) (g : ℕ)
      → (store.edges g).n ≤ ((ewma gid alpha kph now store).1.edges g).n
  unfolding ewma
  fold_samples gid alpha kph now store g = elim (Bool-cases (g == gid)) [
    | inl e ↦
        let same : g ≡ gid = ground (arith, e) in
        let eq : (store.edges g).n ≡ (store.edges gid).n = ap (λ x. (store.edges x).n) same in
        rw e (omega (arith, eq))
    | inr e ↦ rw e (omega arith)
  ]

  fold_edge :
      (gid alpha kph now : ℕ) (store : Store)
      → alpha ≤ 1000
      → plausible kph ≡ true
      → (g : ℕ) → Gate (store.index g) (store.edges g).n × SpeedOk 30000 (store.edges g).kph
      → Gate ((ewma gid alpha kph now store).1.index g) ((ewma gid alpha kph now store).1.edges g).n
        × SpeedOk 30000 ((ewma gid alpha kph now store).1.edges g).kph
  unfolding ewma
  fold_edge gid alpha kph now store small ok g (counted, slow) = elim (Bool-cases (g == gid)) [
    | inr e ↦ rw e (counted, slow)
    | inl e ↦
        let same : g ≡ gid = ground (arith, e) in
        let n_eq : (store.edges g).n ≡ (store.edges gid).n = ap (λ x. (store.edges x).n) same in
        rw e (
          subst (λ n. Gate (store.index g) (suc n)) n_eq
              (Gate-up (store.index g) (store.edges g).n counted),
          blend_bound alpha kph 30000 (store.edges gid).kph small (ground (arith, ok))
              (subst (λ x. SpeedOk 30000 (store.edges x).kph) same slow),
        )
  ]

  enter_edge :
      (gid now n : ℕ) (store : Store)
      → n ≤ (store.edges gid).n
      → (g : ℕ) → Gate (store.index g) (store.edges g).n × SpeedOk 30000 (store.edges g).kph
      → Gate ((published ewma_alpha min_samples gid now (n, store)).index g) (store.edges g).n
        × SpeedOk 30000 (store.edges g).kph
  unfolding publish_edge
  enter_edge gid now n store le g (counted, slow) = elim (Bool-cases (leb min_samples n)) [
    | inr few ↦ rw few (counted, slow)
    | inl enough ↦ elim (Bool-cases (g == gid)) [
      | inr e ↦ rw (enough, e) (counted, slow)
      | inl e ↦
          let same : g ≡ gid = ground (arith, e) in
          let n_eq : (store.edges g).n ≡ (store.edges gid).n = ap (λ x. (store.edges x).n) same in
          let many : min_samples ≤ (store.edges g).n = ground (arith, enough, le, n_eq) in
          rw (enough, e) (many, slow)
    ]
  ]

  pub edges_kept :
      (gid now n : ℕ) (store : Store)
      → (published ewma_alpha min_samples gid now (n, store)).edges ≡ store.edges
  unfolding publish_edge
  edges_kept gid now n store = elim (Bool-cases (leb min_samples n)) [
    | inl e ↦ rw e refl
    | inr e ↦ rw e refl
  ]

  fold_own :
      (gid alpha kph now : ℕ) (store : Store)
      → (ewma gid alpha kph now store).0 ≤ ((ewma gid alpha kph now store).1.edges gid).n
  unfolding ewma
  fold_own gid alpha kph now store =
      let e : (gid == gid) ≡ true = ground arith in rw e (omega arith)

  step-IsSound : (w w' : World) → Step w w' → IsSound w → IsSound w'
  step-IsSound w w' (fold gid kph weight now store pending ok) (edges, answers) =
      let alpha : ℕ = alpha_of ewma_alpha min_samples weight in
      (
        (λ g. fold_edge gid alpha kph now store (omega arith) ok g (edges g)),
        (
          fold_own gid alpha kph now store,
          All-map (λ a. a.2 ≤ (store.edges a.0).n)
              (λ a. a.2 ≤ ((ewma gid alpha kph now store).1.edges a.0).n)
              (λ a le. omega (arith, le, fold_samples gid alpha kph now store a.0)) pending answers,
        ),
      )
  step-IsSound w w' (enter gid now n store before later) (edges, answers) =
      let (first, (le, rest)) =
        All-prefix (λ a. a.2 ≤ (store.edges a.0).n) before ((gid, now, n) ∷ later) answers in
      let index = (published ewma_alpha min_samples gid now (n, store)).index in
      let kept = sym (edges_kept gid now n store) in
      (
        subst (λ (e : ℕ → Edge). (g : ℕ) → Gate (index g) (e g).n × SpeedOk 30000 (e g).kph) kept
            (λ g. enter_edge gid now n store le g (edges g)),
        subst (λ (e : ℕ → Edge). All (λ a. a.2 ≤ (e a.0).n) (before ++ later)) kept
            (All-append (λ a. a.2 ≤ (store.edges a.0).n) before later first rest),
      )

  pub data Steps : World → World → Type 0 where
    done : (w : World) → Steps w w
    step : (u v w : World) → Step u v → Steps v w → Steps u w

  -- However the folds and the entries of any number of writers interleave, an edge is in the index only
  -- with the samples that it needs, and no stored speed is above 300 km/h, if it was so at the start.
  pub steps-IsSound : (w w' : World) → Steps w w' → IsSound w → IsSound w'
  steps-IsSound w w' (done u) h = h
  steps-IsSound u w (step _ v _ one more) h = steps-IsSound v w more (step-IsSound u v one h)
