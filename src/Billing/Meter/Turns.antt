-- ===== src/Billing/Meter/Turns.antt =====
-- billing/usage.py: the counter of a tenant over the turns of its requests.
use geocoder_fwd.Prelude.{
  ℕ, zero, suc, ◌+◌, ◌≤◌, ◌<◌, ◌≡◌, ◌⊎◌, refl, sym, ap, List, [], ◌∷◌, All, All-map, ◌==◌, ltb,
  arith, Bool-cases, inl, inr,
}
use mathlib.Core.Path.{subst}
use geocoder_fwd.Billing.Meter.{
  Counter, Phase, starting, watching, queued, allowed, refused, served, refunded, Request,
  incr_tenant, decr_tenant, turn_from, turn, turn_at, turns,
}

-- What a request holds of the counter: its weight, from the time when it is allowed until it is
-- refunded.
abbrev held_in : ℕ → Phase → ℕ
held_in milli starting = 0
held_in milli (watching seen) = 0
held_in milli (queued seen) = 0
held_in milli (allowed count) = milli
held_in milli refused = 0
held_in milli served = milli
held_in milli refunded = 0

abbrev pub held : Request → ℕ
held r = held_in r.milli r.phase

abbrev pub held_by : List Request → ℕ
held_by [] = 0
held_by (r ∷ rs) = held r + held_by rs

-- No request has begun.
abbrev pub IsStarting : Request → Type 0
IsStarting r = r.phase ≡ starting

-- A request that saw the latest write before its EXEC still fits.
abbrev OkIn : ℕ → Counter → ℕ → Phase → Type 0
OkIn cap_milli c milli starting = Unit
OkIn cap_milli c milli (watching seen) = seen ≤ c.writes
OkIn cap_milli c milli (queued seen) =
    (seen ≤ c.writes) × ((seen < c.writes) ⊎ (c.count + milli ≤ cap_milli))
OkIn cap_milli c milli (allowed count) = Unit
OkIn cap_milli c milli refused = Unit
OkIn cap_milli c milli served = Unit
OkIn cap_milli c milli refunded = Unit

abbrev Ok : ℕ → Counter → Request → Type 0
Ok cap_milli c r = OkIn cap_milli c r.milli r.phase

-- What a turn does to the counter, when requests held `before` and hold `after`.
abbrev Moves : ℕ → Counter → Counter → ℕ → ℕ → Type 0
Moves cap_milli c c' before after =
    (c'.count + before ≡ c.count + after)
    × (c'.count ≤ cap_milli)
    × ((c' ≡ c) ⊎ (c'.writes ≡ suc c.writes))

Ok-same :
    (cap_milli : ℕ) (c c' : Counter) (r : Request)
    → c'.writes ≡ suc c.writes
    → Ok cap_milli c r
    → Ok cap_milli c' r
Ok-same cap_milli c c' r written ok = later r.milli r.phase ok
  where
    later :
        (milli : ℕ) (phase : Phase) → OkIn cap_milli c milli phase → OkIn cap_milli c' milli phase
    later milli starting ok = tt
    later milli (watching seen) ok = omega (arith, ok, written)
    later milli (queued seen) (ok, fits) =
        (omega (arith, ok, written), inl (omega (arith, ok, written)))
    later milli (allowed count) ok = tt
    later milli refused ok = tt
    later milli served ok = tt
    later milli refunded ok = tt

-- The others keep their place in order, whatever a turn wrote.
Ok-moved :
    (cap_milli : ℕ) (c c' : Counter) (rs : List Request)
    → (c' ≡ c) ⊎ (c'.writes ≡ suc c.writes)
    → All (Ok cap_milli c) rs
    → All (Ok cap_milli c') rs
Ok-moved cap_milli c c' rs (inl same) h = subst (λ d. All (Ok cap_milli d) rs) (sym same) h
Ok-moved cap_milli c c' rs (inr written) h =
    All-map (Ok cap_milli c) (Ok cap_milli c') (λ r ok. Ok-same cap_milli c c' r written ok) rs h

module _ (cap_milli : ℕ) (limited : 0 < cap_milli) where
  turn_from-Ok :
      (r : Request) (phase : Phase) (c : Counter)
      → OkIn cap_milli c r.milli phase
      → c.count ≤ cap_milli
      → held_in r.milli phase ≤ c.count
      → phase ≡ r.phase
      → Ok cap_milli (turn_from cap_milli r phase c).1 (turn_from cap_milli r phase c).0
        × Moves cap_milli c
            (turn_from cap_milli r phase c).1
            (held_in r.milli phase)
            (held (turn_from cap_milli r phase c).0)
  unfolding turn_from incr_tenant decr_tenant
  turn_from-Ok r starting c ok h hh e = elim (Bool-cases (cap_milli == 0)) [
    | inl no_cap ↦ ground (arith, no_cap, limited)
    | inr some_cap ↦ rw some_cap (omega arith, (refl, h, inl refl))
  ]
  turn_from-Ok r (watching seen) c ok h hh e =
      elim (Bool-cases (ltb cap_milli (c.count + r.milli))) [
        | inl over ↦ rw over (tt, (refl, h, inl refl))
        | inr fits ↦ rw fits ((ok, inr (ground (arith, fits))), (refl, h, inl refl))
      ]
  turn_from-Ok r (queued seen) c (ok, fits) h hh e = elim (Bool-cases (seen == c.writes)) [
    | inl last ↦
        let room : c.count + r.milli ≤ cap_milli = ground (arith, last, fits) in
        rw last (tt, (omega arith, room, inr refl))
    | inr lost ↦ rw lost (tt, (refl, h, inl refl))
  ]
  turn_from-Ok r (allowed count) c ok h hh e = elim (Bool-cases r.upstream_ok) [
    | inl served_well ↦ rw served_well (tt, (refl, h, inl refl))
    | inr failed ↦ rw failed (tt, (omega (arith, hh), omega (arith, h), inr refl))
  ]
  turn_from-Ok r refused c ok h hh e = rw (← e) (tt, (refl, h, inl refl))
  turn_from-Ok r served c ok h hh e = rw (← e) (tt, (refl, h, inl refl))
  turn_from-Ok r refunded c ok h hh e = rw (← e) (tt, (refl, h, inl refl))

  turn_at-Ok :
      (i : ℕ) (rs : List Request) (c : Counter)
      → All (Ok cap_milli c) rs
      → c.count ≤ cap_milli
      → held_by rs ≤ c.count
      → All (Ok cap_milli (turn_at cap_milli i rs c).1) (turn_at cap_milli i rs c).0
        × Moves cap_milli c
            (turn_at cap_milli i rs c).1
            (held_by rs)
            (held_by (turn_at cap_milli i rs c).0)
  unfolding turn_at turn
  turn_at-Ok i [] c ok h hh = (tt, (refl, h, inl refl))
  turn_at-Ok zero (r ∷ rs) c (ok, oks) h hh =
      let (ok', (count, within, moved)) = turn_from-Ok r r.phase c ok h (omega (arith, hh)) refl in
      (
        (ok', Ok-moved cap_milli c (turn_from cap_milli r r.phase c).1 rs moved oks),
        (omega (arith, count), within, moved),
      )
  turn_at-Ok (suc i) (r ∷ rs) c (ok, oks) h hh =
      let (oks', (count, within, moved)) = turn_at-Ok i rs c oks h (omega (arith, hh)) in
      (
        ((Ok-moved cap_milli c (turn_at cap_milli i rs c).1 (r ∷ []) moved (ok, tt)).0, oks'),
        (omega (arith, count), within, moved),
      )

  turns-Ok :
      (schedule : List ℕ) (rs : List Request) (c : Counter)
      → All (Ok cap_milli c) rs
      → c.count ≤ cap_milli
      → held_by rs ≤ c.count
      → ((turns cap_milli schedule rs c).1.count + held_by rs
          ≡ c.count + held_by (turns cap_milli schedule rs c).0)
        × ((turns cap_milli schedule rs c).1.count ≤ cap_milli)
  unfolding turns
  turns-Ok [] rs c ok h hh = (refl, h)
  turns-Ok (i ∷ schedule) rs c ok h hh =
      let (ok', (count, within, moved)) = turn_at-Ok i rs c ok h hh in
      let (total, below) =
        turns-Ok schedule (turn_at cap_milli i rs c).0 (turn_at cap_milli i rs c).1 ok' within
          (omega (arith, count, hh)) in
      (omega (arith, count, total), below)

starting-Ok :
    (cap_milli : ℕ) (c : Counter) (rs : List Request) → All IsStarting rs → All (Ok cap_milli c) rs
starting-Ok cap_milli c rs h =
    All-map IsStarting (Ok cap_milli c) (λ r e. subst (OkIn cap_milli c r.milli) (sym e) tt) rs h

starting_held : (rs : List Request) → All IsStarting rs → held_by rs ≡ 0
starting_held [] h = refl
starting_held (r ∷ rs) (e, h) = omega (arith, starting_held rs h, ap (held_in r.milli) e)

-- Whatever the interleaving of the requests of a tenant with a hard cap, the counter never passes
-- the cap if it did not before, and it has gone up by exactly the weights of the requests that are
-- allowed or served: a refused or a refunded request has left nothing behind.
pub turns_within_cap :
    (cap_milli : ℕ) (schedule : List ℕ) (rs : List Request) (c : Counter)
    → 0 < cap_milli
    → c.count ≤ cap_milli
    → All IsStarting rs
    → ((turns cap_milli schedule rs c).1.count ≤ cap_milli)
      × ((turns cap_milli schedule rs c).1.count
          ≡ c.count + held_by (turns cap_milli schedule rs c).0)
turns_within_cap cap_milli schedule rs c limited h new =
    let none_held = starting_held rs new in
    let (total, below) =
      turns-Ok cap_milli limited schedule rs c (starting-Ok cap_milli c rs new) h
        (omega (arith, none_held)) in
    (below, omega (arith, none_held, total))
