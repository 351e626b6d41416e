-- ===== src/Billing/Weights/Cache.antt =====
-- `get_weights` and `invalidate` of billing/weights.py: the copy of the table that a process keeps.
-- Times are readings of the monotonic clock, in any unit.
use geocoder_fwd.Prelude.{
  ℕ, ◌-◌, ◌<◌, ◌≡◌, refl, Option, none, some, Dict, get_or, ltb, lt→ltb, arith, if◌then◌else◌,
}
use geocoder_fwd.Billing.Weights.{default_weights}

pub record Cache : Type 0 where
  pub copy : Option (Dict ℕ)
  pub loaded_at : ℕ

unfoldable pub invalidate : Cache → Cache
invalidate c = record { copy = none; loaded_at = 0 }

module _ (ttl : ℕ) where
  -- `_cache is not None and time.monotonic() - _loaded_at < _TTL`, with the copy.
  unfoldable pub fresh_copy : ℕ → Cache → Option (Dict ℕ)
  fresh_copy t c = if ltb (t - c.loaded_at) ttl then c.copy else none

  -- Under the lock: the second look at `t`, the query's rows (`none` if it raised), and the time at
  -- which it came back.
  unfoldable pub reload : ℕ → Option (Dict ℕ) → ℕ → Cache → Dict ℕ × Cache
  reload t rows t' c = elim (fresh_copy t c) [
    | some w ↦ (w, c)
    | none ↦
        let w = get_or (get_or default_weights c.copy) rows in
        (w, record { copy = some w; loaded_at = t' })
  ]

  -- `others` is what other tasks did to the cache while this one waited for the lock.
  unfoldable pub get_weights :
      ℕ → (Cache → Cache) → ℕ → Option (Dict ℕ) → ℕ → Cache → Dict ℕ × Cache
  get_weights t₀ others t₁ rows t₂ c = elim (fresh_copy t₀ c) [
    | some w ↦ (w, c)
    | none ↦ reload t₁ rows t₂ (others c)
  ]

  -- What is answered is what the cache holds afterwards.
  copy-get_weights :
      (t₀ : ℕ) (others : Cache → Cache) (t₁ : ℕ) (rows : Option (Dict ℕ)) (t₂ : ℕ) (c : Cache)
      → (get_weights t₀ others t₁ rows t₂ c).1.copy ≡ some (get_weights t₀ others t₁ rows t₂ c).0
  unfolding get_weights reload fresh_copy
  copy-get_weights t₀ others t₁ rows t₂ c = ground arith

  get_weights_reload :
      (t₀ : ℕ) (others : Cache → Cache) (t₁ : ℕ) (rows : Option (Dict ℕ)) (t₂ : ℕ) (c : Cache)
      → fresh_copy t₀ c ≡ none
      → fresh_copy t₁ (others c) ≡ none
      → let w = get_or (get_or default_weights (others c).copy) rows in
        get_weights t₀ others t₁ rows t₂ c ≡ (w, record { copy = some w; loaded_at = t₂ })
  unfolding get_weights reload
  get_weights_reload t₀ others t₁ rows t₂ c stale stale' =
      rw (stale, get_weights) (rw (stale', reload))

  fresh_copy_soon :
      (t t' : ℕ) (w : Dict ℕ)
      → t - t' < ttl
      → fresh_copy t (record { copy = some w; loaded_at = t' }) ≡ some w
  unfolding fresh_copy
  fresh_copy_soon t t' w soon = rw (lt→ltb (t - t') ttl soon)

  get_weights_fresh :
      (t₀ : ℕ) (others : Cache → Cache) (t₁ : ℕ) (rows : Option (Dict ℕ)) (t₂ : ℕ) (c : Cache)
      {w : Dict ℕ}
      → fresh_copy t₀ c ≡ some w
      → get_weights t₀ others t₁ rows t₂ c ≡ (w, c)
  unfolding get_weights
  get_weights_fresh t₀ others t₁ rows t₂ c e = rw (e, get_weights)

  -- A call that finds no fresh copy, also under the lock, answers the rows of the query; if that
  -- raised, the stale copy; without one, the seed defaults. Until the time to live has passed since
  -- then, a later call answers the same and asks nobody.
  get_weights_stale :
      (t₀ : ℕ) (others : Cache → Cache) (t₁ : ℕ) (rows : Option (Dict ℕ)) (t₂ : ℕ) (c : Cache)
      (t₃ : ℕ) (others' : Cache → Cache) (t₄ : ℕ) (rows' : Option (Dict ℕ)) (t₅ : ℕ)
      → fresh_copy t₀ c ≡ none
      → fresh_copy t₁ (others c) ≡ none
      → t₃ - t₂ < ttl
      → let (w, c') = get_weights t₀ others t₁ rows t₂ c in
        (w ≡ get_or (get_or default_weights (others c).copy) rows)
        × (get_weights t₃ others' t₄ rows' t₅ c' ≡ (w, c'))
  get_weights_stale t₀ others t₁ rows t₂ c t₃ others' t₄ rows' t₅ stale stale' soon =
      rw (get_weights_reload t₀ others t₁ rows t₂ c stale stale')
        (refl, get_weights_fresh t₃ others' t₄ rows' t₅ _ (fresh_copy_soon t₃ t₂ _ soon))

  -- After `invalidate` the next call asks the database, if no other task filled the cache meanwhile.
  pub get_weights-invalidate :
      (t₀ t₁ t₂ : ℕ) (rows : Dict ℕ) (c : Cache)
      → (get_weights t₀ (λ c. c) t₁ (some rows) t₂ (invalidate c)).0 ≡ rows
  unfolding get_weights reload fresh_copy invalidate
  get_weights-invalidate t₀ t₁ t₂ rows c = ground arith
