-- ===== src/Messaging/Attempts.antt =====
-- shared/nats_client.py: how a loop of attempts ends, and how long it sleeps.
use geocoder_fwd.Prelude.{
  ℕ, zero, suc, ◌+◌, ◌≤◌, ◌<◌, ◌≡◌, ◌≢◌, ◌⊎◌, refl, sym, ap, ◌∙◌, Option, none, some, ltb, arith,
  Bool-cases, inl, inr,
}
use geocoder_fwd.Messaging.{Outcome, Round, stop, again, proceed, attempts}

module _ (round : ℕ → Round) where
  passes :
      (r : Round) (rest : Option Outcome × ℕ) (o : Outcome)
      → ((x : Outcome) → r ≡ stop x → x ≡ o)
      → rest.0 ≡ some o
      → (proceed r rest).0 ≡ some o
  passes (stop x) rest o h found = ap some (h x refl)
  passes (again seconds) rest o h found = found

  -- A round that stops is reached, if those before it can only stop in the same way.
  pub attempts_reach :
      (n attempt i : ℕ) (o : Outcome)
      → attempt ≤ i
      → i < attempt + n
      → ((j : ℕ) (x : Outcome) → j < i → round j ≡ stop x → x ≡ o)
      → round i ≡ stop o
      → (attempts round attempt n).0 ≡ some o
  unfolding attempts
  attempts_reach zero attempt i o le lt h here = ground (arith, le, lt)
  attempts_reach (suc n) attempt i o le lt h here = elim (Bool-cases (ltb attempt i)) [
    | inl e ↦
        let next =
          attempts_reach n (suc attempt) i o (ground (arith, e)) (omega (arith, lt)) h here in
        passes (round attempt) (attempts round (suc attempt) n) o
          (λ x. h attempt x (ground (arith, e))) next
    | inr e ↦
        let same : i ≡ attempt = ground (arith, e, le) in
        let stops : round attempt ≡ stop o = ap round (sym same) ∙ here in rw stops refl
  ]

  round_some :
      (r : Round) (rest : Option Outcome × ℕ) (o : Outcome)
      → (proceed r rest).0 ≡ some o
      → (r ≡ stop o) ⊎ (rest.0 ≡ some o)
  round_some (stop x) rest o h = let same : x ≡ o = cc in inl (ap stop same)
  round_some (again seconds) rest o h = inr h

  -- How the loop ends is how one of its rounds stops.
  pub attempts-some :
      (n attempt : ℕ) (o : Outcome)
      → (attempts round attempt n).0 ≡ some o
      → (i : ℕ) × (i < attempt + n) × (round i ≡ stop o)
  unfolding attempts
  attempts-some zero attempt o h = cc
  attempts-some (suc n) attempt o h =
      elim (round_some (round attempt) (attempts round (suc attempt) n) o h) [
        | inl here ↦ (attempt, omega arith, here)
        | inr later ↦
            let (i, lt, stops) = attempts-some n (suc attempt) o later in
            (i, omega (arith, lt), stops)
      ]

  abbrev pub sum_of : (ℕ → ℕ) → ℕ → ℕ → ℕ
  sum_of w attempt zero = 0
  sum_of w attempt (suc n) = w attempt + sum_of w (suc attempt) n

  round_time :
      (r : Round) (rest : Option Outcome × ℕ) (s t : ℕ)
      → ((seconds : ℕ) → r ≡ again seconds → seconds ≤ s)
      → rest.1 ≤ t
      → (proceed r rest).1 ≤ s + t
  round_time (stop x) rest s t h le = omega arith
  round_time (again seconds) rest s t h le = omega (arith, h seconds refl, le)

  pub attempts_time :
      (w : ℕ → ℕ)
      → ((j seconds : ℕ) → round j ≡ again seconds → seconds ≤ w j)
      → (n attempt : ℕ) → (attempts round attempt n).1 ≤ sum_of w attempt n
  unfolding attempts
  attempts_time w h zero attempt = omega arith
  attempts_time w h (suc n) attempt =
      round_time (round attempt) (attempts round (suc attempt) n) (w attempt)
        (sum_of w (suc attempt) n) (h attempt) (attempts_time w h n (suc attempt))

  -- A loop whose last round cannot go on ends.
  pub attempts_end :
      (n attempt : ℕ)
      → ((seconds : ℕ) → round (attempt + n) ≢ again seconds)
      → (o : Outcome) × ((attempts round attempt (suc n)).0 ≡ some o)
  unfolding attempts
  attempts_end zero attempt last =
      let eq : attempt + 0 ≡ attempt = omega arith in
      ended (round attempt) (λ seconds e. last seconds (ap round eq ∙ e))
    where
      ended :
          (r : Round)
          → ((seconds : ℕ) → r ≢ again seconds)
          → (o : Outcome) × ((proceed r (none, 0)).0 ≡ some o)
      ended (stop o) last = (o, refl)
      ended (again seconds) last = absurd (last seconds refl)
  attempts_end (suc n) attempt last =
      let eq : attempt + suc n ≡ suc attempt + n = omega arith in
      ended (round attempt) (attempts round (suc attempt) (suc n))
        (attempts_end n (suc attempt) (λ seconds e. last seconds (ap round eq ∙ e)))
    where
      ended :
          (r : Round) (rest : Option Outcome × ℕ)
          → (o : Outcome) × (rest.0 ≡ some o)
          → (o : Outcome) × ((proceed r rest).0 ≡ some o)
      ended (stop o) rest later = (o, refl)
      ended (again seconds) rest later = later
