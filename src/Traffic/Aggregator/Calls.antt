-- ===== src/Traffic/Aggregator/Calls.antt =====
-- services/traffic_aggregator.py, `_update_edge`: one call, as steps and by its effect.
use geocoder_fwd.Prelude.{
  ℕ, suc, ◌+◌, ◌-◌, Option, none, ◌*◌, ◌/◌, ◌≤◌, ◌<◌, ◌≡◌, ◌⊎◌, refl, min, true, some, [], ◌==◌,
  leb, arith, Bool-cases, inl, inr,
}
use geocoder_fwd.Traffic.Aggregator.{
  Store, blend, ewma, publish_edge, plausible, alpha_of, published, update_edge,
}
use geocoder_fwd.Traffic.Aggregator.Folds.{fold, enter, Steps, done, step, edges_kept}

-- `v` is `whole / unit`, rounded to the nearest.
abbrev IsRounded : ℕ → ℕ → ℕ → Type 0
IsRounded unit whole v = (2 * unit * v ≤ 2 * whole + unit) × (2 * whole + unit < 2 * unit * (v + 1))

-- The first speed of an edge is the one that is observed, in hundredths of a km/h; later ones draw the
-- speed towards them by `alpha` thousandths.
abbrev IsBlend : ℕ → ℕ → Option ℕ → ℕ → Type 0
IsBlend alpha kph none v = IsRounded 10000 kph v
IsBlend alpha kph (some prev) v =
    IsRounded 10000000 ((1000 - alpha) * (prev * 10000) + alpha * kph) v

blend-IsBlend : (alpha kph : ℕ) (prev : Option ℕ) → IsBlend alpha kph prev (blend alpha kph prev)
blend-IsBlend alpha kph none = (omega arith, omega arith)
blend-IsBlend alpha kph (some prev) =
    let whole : ℕ = (1000 - alpha) * (prev * 10000) + alpha * kph in rounded whole
  where
    rounded : (whole : ℕ) → IsRounded 10000000 whole ((whole + 5000000) / 10000000)
    rounded whole = (omega arith, omega arith)

module _ (ewma_alpha min_samples : ℕ) where
  -- No more than a fold of the observation and the entry of its answer.
  update_edge-Steps :
      (gid kph weight now : ℕ) (store : Store)
      → Steps ewma_alpha min_samples
          (store, [])
          (update_edge ewma_alpha min_samples gid kph weight now store, [])
  unfolding update_edge
  update_edge-Steps gid kph weight now store = elim (Bool-cases (plausible kph)) [
    | inr e ↦ rw e (done (store, []))
    | inl e ↦
        let answer = ewma gid (alpha_of ewma_alpha min_samples weight) kph now store in
        rw e (
          step _ _ _ (fold gid kph weight now store [] e)
            (step _ _ _ (enter gid now answer.0 answer.1 [] []) (done _)))
  ]

  -- The edge of the call has one sample more, the time, and the speed drawn towards the new one by the
  -- factor times the weight, but at most all the way; no other edge changes.
  abbrev IsFolded : ℕ → ℕ → ℕ → ℕ → Store → Store → Type 0
  IsFolded gid kph weight now store store' =
      ((speed : ℕ) × IsBlend (min 1000 (ewma_alpha * weight / 1000)) kph (store.edges gid).kph speed
        × (store'.edges gid ≡ record { kph = some speed; n = suc (store.edges gid).n; ts = now }))
      × ((g : ℕ) → (g ≡ gid) ⊎ (store'.edges g ≡ store.edges g))

  -- The edge is entered at the time exactly with enough samples, and no other entry changes.
  abbrev IsEntered : ℕ → ℕ → Store → Store → Type 0
  IsEntered gid now store store' =
      (((min_samples ≤ suc (store.edges gid).n) × (store'.index gid ≡ some now))
        ⊎ ((suc (store.edges gid).n < min_samples) × (store'.index gid ≡ store.index gid)))
      × ((g : ℕ) → (g ≡ gid) ⊎ (store'.index g ≡ store.index g))

  -- What a call does with a speed in millionths of a km/h.
  abbrev pub IsCall : ℕ → ℕ → ℕ → ℕ → Store → Store → Type 0
  IsCall gid kph weight now store store' =
      (((kph ≡ 0) ⊎ (300000000 < kph)) × (store' ≡ store))
      ⊎ (((1 ≤ kph) × (kph ≤ 300000000))
          × (IsFolded gid kph weight now store store' × IsEntered gid now store store'))

  published-IsEntered :
      (gid alpha kph now : ℕ) (store : Store)
      → IsEntered gid now store
          (published ewma_alpha min_samples gid now (ewma gid alpha kph now store))
  unfolding ewma publish_edge
  published-IsEntered gid alpha kph now store =
      let own : (gid == gid) ≡ true = ground arith in
      elim (Bool-cases (leb min_samples (suc (store.edges gid).n))) [
        | inr few ↦ rw few (inr (ground (arith, few), refl), λ g. inr refl)
        | inl enough ↦
            rw (enough, own)
              (
                inl (ground (arith, enough), refl),
                λ g. elim (Bool-cases (g == gid)) [
                  | inl e ↦ inl (ground (arith, e))
                  | inr e ↦ rw e (inr refl)
                ],
              )
      ]

  published-IsFolded :
      (gid kph weight now : ℕ) (store : Store)
      → IsFolded gid kph weight now store (
          published ewma_alpha min_samples gid now
            (ewma gid (alpha_of ewma_alpha min_samples weight) kph now store))
  unfolding ewma publish_edge
  published-IsFolded gid kph weight now store =
      let own : (gid == gid) ≡ true = ground arith in
      let answer = ewma gid (alpha_of ewma_alpha min_samples weight) kph now store in
      rw (edges_kept ewma_alpha min_samples gid now answer.0 answer.1) (
        (
          _,
          blend-IsBlend (alpha_of ewma_alpha min_samples weight) kph (store.edges gid).kph,
          rw own refl,
        ),
        λ g. elim (Bool-cases (g == gid)) [
          | inl e ↦ inl (ground (arith, e))
          | inr e ↦ rw e (inr refl)
        ],
      )

  -- A call of `_update_edge` is a run of the steps, and has exactly the effect that it is to have: none
  -- for a speed that is not above 0 or above 300 km/h. Any other is folded once, into the edge alone: one
  -- sample more, the call's time, and its speed, or the edge's drawn towards it by the factor times the
  -- weight; and the edge is entered in the index at that time exactly if it has enough samples by then.
  pub update_edge-IsCall :
      (gid kph weight now : ℕ) (store : Store)
      → Steps ewma_alpha min_samples
          (store, [])
          (update_edge ewma_alpha min_samples gid kph weight now store, [])
        × IsCall gid kph weight now store
            (update_edge ewma_alpha min_samples gid kph weight now store)
  unfolding update_edge
  update_edge-IsCall gid kph weight now store = (
    update_edge-Steps gid kph weight now store,
    elim (Bool-cases (plausible kph)) [
      | inr e ↦ rw e (inl (ground (arith, e), refl))
      | inl e ↦ rw e (
          inr (
            (ground (arith, e), ground (arith, e)),
            (
              published-IsFolded gid kph weight now store,
              published-IsEntered gid (alpha_of ewma_alpha min_samples weight) kph now store,
            ),
          ))
    ],
  )
