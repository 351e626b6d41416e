-- ===== src/Messaging/Endings.antt =====
-- shared/nats_client.py: how `ensure_stream` ends.
use geocoder_fwd.Prelude.{
  ℕ, ◌+◌, ◌-◌, ◌≤◌, ◌<◌, ◌≡◌, ◌⊎◌, refl, Bool, true, ◌&&◌, ◌||◌, Option, none, some, ltb,
  if◌then◌else◌, arith, Bool-cases, inl, inr, codes,
}
use geocoder_fwd.Messaging.{
  Error, is_transient_error, within, Outcome, returned, raised, stop, again, Calls, create_round,
  find_round, stream_round, ensure_stream, stream_retries,
}
use geocoder_fwd.Messaging.Attempts.{attempts_reach, attempts-some, attempts_time, attempts_end}

-- What `ensure_stream` does before its last attempt is to return or to go on.
create_round_early :
    (attempt : ℕ) (added : Option Error) (x : Outcome)
    → attempt < stream_retries - 1
    → create_round attempt added ≡ stop x
    → x ≡ returned
create_round_early attempt none x lt h = cc
create_round_early attempt (some e) x lt h =
    let early : ltb attempt (stream_retries - 1) ≡ true = ground (arith, lt) in
    elim (Bool-cases (is_transient_error e || within (codes "already exists") e)) [
      | inl f ↦ let no : again (attempt + 1) ≡ stop x = rw (f, early) at h in cc
      | inr f ↦ let no : again 0 ≡ stop x = rw (f, early) at h in cc
    ]

find_round_early :
    (attempt : ℕ) (found added : Option Error) (x : Outcome)
    → attempt < stream_retries - 1
    → find_round attempt found added ≡ stop x
    → x ≡ returned
find_round_early attempt none added x lt h = cc
find_round_early attempt (some e) added x lt h =
    let early : ltb attempt (stream_retries - 1) ≡ true = ground (arith, lt) in
    elim (Bool-cases (is_transient_error e)) [
      | inl f ↦ let no : again (attempt + 1) ≡ stop x = rw (f, early) at h in cc
      | inr f ↦ create_round_early attempt added x lt (rw f at h)
    ]

-- The seconds that an attempt sleeps.
abbrev stream_sleep : ℕ → ℕ
stream_sleep attempt = if ltb attempt (stream_retries - 1) then attempt + 1 else 0

pub again_eq : (a b : ℕ) → again a ≡ again b → a ≡ b
again_eq a b h = cc

create_round_sleep :
    (attempt : ℕ) (added : Option Error) (seconds : ℕ)
    → create_round attempt added ≡ again seconds
    → (seconds ≤ attempt + 1) × (attempt < stream_retries - 1)
create_round_sleep attempt none seconds h = cc
create_round_sleep attempt (some e) seconds h =
    let retry : Bool = is_transient_error e || within (codes "already exists") e in
    elim (Bool-cases (ltb attempt (stream_retries - 1))) [
      | inr late ↦ elim (Bool-cases retry) [
        | inl f ↦ let no : stop (raised e) ≡ again seconds = rw (f, late) at h in cc
        | inr f ↦ let no : stop (raised e) ≡ again seconds = rw (f, late) at h in cc
      ]
      | inl early ↦ elim (Bool-cases retry) [
        | inl f ↦
            let eq : attempt + 1 ≡ seconds = again_eq (attempt + 1) seconds (rw (f, early) at h) in
            (omega (arith, eq), ground (arith, early))
        | inr f ↦
            let eq : 0 ≡ seconds = again_eq 0 seconds (rw (f, early) at h) in
            (omega (arith, eq), ground (arith, early))
      ]
    ]

find_round_sleep :
    (attempt : ℕ) (found added : Option Error) (seconds : ℕ)
    → find_round attempt found added ≡ again seconds
    → (seconds ≤ attempt + 1) × (attempt < stream_retries - 1)
find_round_sleep attempt none added seconds h = cc
find_round_sleep attempt (some e) added seconds h =
    elim (Bool-cases (is_transient_error e && ltb attempt (stream_retries - 1))) [
      | inr f ↦ create_round_sleep attempt added seconds (rw f at h)
      | inl f ↦
          let eq : attempt + 1 ≡ seconds = again_eq (attempt + 1) seconds (rw f at h) in
          (omega (arith, eq), ground (arith, f))
    ]

create_answered :
    (attempt : ℕ) (added : Option Error) → create_round attempt added ≡ stop returned → added ≡ none
create_answered attempt none h = refl
create_answered attempt (some e) h =
    elim (Bool-cases (is_transient_error e || within (codes "already exists") e)) [
      | inl f ↦ elim (Bool-cases (ltb attempt (stream_retries - 1))) [
        | inl g ↦ let no : again (attempt + 1) ≡ stop returned = rw (f, g) at h in cc
        | inr g ↦ let no : stop (raised e) ≡ stop returned = rw (f, g) at h in cc
      ]
      | inr f ↦ elim (Bool-cases (ltb attempt (stream_retries - 1))) [
        | inl g ↦ let no : again 0 ≡ stop returned = rw (f, g) at h in cc
        | inr g ↦ let no : stop (raised e) ≡ stop returned = rw (f, g) at h in cc
      ]
    ]

stream_answered :
    (attempt : ℕ) (found added : Option Error)
    → find_round attempt found added ≡ stop returned
    → (found ≡ none) ⊎ (added ≡ none)
stream_answered attempt none added h = inl refl
stream_answered attempt (some e) added h =
    elim (Bool-cases (is_transient_error e && ltb attempt (stream_retries - 1))) [
      | inl f ↦ let no : again (attempt + 1) ≡ stop returned = rw f at h in cc
      | inr f ↦ inr (create_answered attempt added (rw f at h))
    ]

module _ (find add : Calls) where
  -- Whatever the server answers, `ensure_stream` ends in one of its five attempts, by returning or with
  -- the error of the last, and it has slept 10 seconds at most.
  ensure_stream_ends :
      ((o : Outcome) × ((ensure_stream find add).0 ≡ some o)) × ((ensure_stream find add).1 ≤ 10)
  unfolding ensure_stream
  ensure_stream_ends = (
    attempts_end (stream_round find add) 4 0 (λ seconds h.
        let late = (find_round_sleep 4 (find 4) (add 4) seconds h).1 in omega (arith, late)),
    attempts_time (stream_round find add) stream_sleep
        (λ j seconds h.
          let (le, lt) = find_round_sleep j (find j) (add j) seconds h in ground (arith, le, lt))
        5 0,
  )

  -- If the stream is found in one of the five attempts, `ensure_stream` returns: no earlier failure,
  -- transient or not, to find the stream or to create it, makes it give up.
  pub ensure_stream_recovers :
      (i : ℕ) → i < stream_retries → find i ≡ none → (ensure_stream find add).0 ≡ some returned
  unfolding ensure_stream
  ensure_stream_recovers i lt h =
      attempts_reach (stream_round find add) stream_retries 0 i returned (omega arith)
        (omega (arith, lt))
        (λ j x before stops.
          find_round_early j (find j) (add j) x (omega (arith, before, lt)) stops)
        (rw h refl)

  -- `ensure_stream` returns only if in one of its attempts the server found the stream or created it.
  ensure_stream_sound :
      (ensure_stream find add).0 ≡ some returned
      → (i : ℕ) × (i < stream_retries) × ((find i ≡ none) ⊎ (add i ≡ none))
  unfolding ensure_stream
  ensure_stream_sound h =
      let (i, lt, stops) = attempts-some (stream_round find add) stream_retries 0 returned h in
      (i, omega (arith, lt), stream_answered i (find i) (add i) stops)
