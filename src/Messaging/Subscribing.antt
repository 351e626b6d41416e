-- ===== src/Messaging/Subscribing.antt =====
-- shared/nats_client.py: how `connect` and `subscribe_to` end.
use geocoder_fwd.Prelude.{
  ℕ, ◌+◌, ◌-◌, ◌*◌, ◌^◌, ◌≤◌, ◌<◌, ◌≡◌, ◌⊎◌, refl, min, true, ◌&&◌, ◌||◌, Option, none, some, ltb,
  if◌then◌else◌, arith, Bool-cases, inl, inr,
}
use geocoder_fwd.Messaging.{
  Error, is_transient_error, Outcome, returned, raised, not_created, stop, again, Calls,
  connect_answer, connect_round, open_connection, verify_round, attach_round, subscribe_round,
  subscribe_to, max_retries, subscribe_retries,
}
use geocoder_fwd.Messaging.Attempts.{attempts_reach, attempts-some, attempts_time, attempts_end}
use geocoder_fwd.Messaging.Endings.{again_eq}

connect_answer_early :
    (attempt : ℕ) (dialled : Option Error) (x : Outcome)
    → attempt < max_retries - 1
    → connect_answer attempt dialled ≡ stop x
    → x ≡ returned
connect_answer_early attempt none x lt h = cc
connect_answer_early attempt (some e) x lt h =
    let early : ltb attempt (max_retries - 1) ≡ true = ground (arith, lt) in
    let no : again (min (if is_transient_error e then 2 * 2 ^ attempt else 2) 30) ≡ stop x =
      rw early at h in
    cc

abbrev connect_sleep : ℕ → ℕ
connect_sleep attempt = if ltb attempt (max_retries - 1) then 30 else 0

connect_answer_sleep :
    (attempt : ℕ) (dialled : Option Error) (seconds : ℕ)
    → connect_answer attempt dialled ≡ again seconds
    → (seconds ≤ 30) × (attempt < max_retries - 1)
connect_answer_sleep attempt none seconds h = cc
connect_answer_sleep attempt (some e) seconds h =
    let delay : ℕ = if is_transient_error e then 2 * 2 ^ attempt else 2 in
    elim (Bool-cases (ltb attempt (max_retries - 1))) [
      | inl early ↦
          let eq : min delay 30 ≡ seconds = again_eq (min delay 30) seconds (rw early at h) in
          (omega (arith, eq), ground (arith, early))
      | inr late ↦ let no : stop (raised e) ≡ again seconds = rw late at h in cc
    ]

module _ (dial : Calls) where
  -- `connect` leaves its loop with a connection if one of its ten attempts gives one; otherwise it
  -- raises. Either way the loop ends, after 270 seconds of sleep at most.
  open_connection_recovers :
      (i : ℕ) → i < max_retries → dial i ≡ none → (open_connection dial).0 ≡ some returned
  unfolding open_connection
  open_connection_recovers i lt h =
      attempts_reach (connect_round dial) max_retries 0 i returned (omega arith) (omega (arith, lt))
        (λ j x before stops. connect_answer_early j (dial j) x (omega (arith, before, lt)) stops)
        (rw h refl)

  -- The loop of `connect` ends within its ten attempts, whatever they meet, and has slept 270 seconds
  -- at most.
  open_connection_ends :
      ((o : Outcome) × ((open_connection dial).0 ≡ some o)) × ((open_connection dial).1 ≤ 270)
  unfolding open_connection
  open_connection_ends = (
    attempts_end (connect_round dial) 9 0 (λ seconds h.
        let late = (connect_answer_sleep 9 (dial 9) seconds h).1 in omega (arith, late)),
    attempts_time (connect_round dial) connect_sleep
        (λ j seconds h.
          let (le, lt) = connect_answer_sleep j (dial j) seconds h in ground (arith, le, lt))
        10 0,
  )

verify_answered :
    (attempt : ℕ) (verified : Option Error)
    → verify_round attempt verified ≡ stop returned
    → verified ≡ none
verify_answered attempt none h = refl
verify_answered attempt (some e) h = elim (Bool-cases (ltb attempt (subscribe_retries - 1))) [
  | inl f ↦ let no : again (2 * (attempt + 1)) ≡ stop returned = rw f at h in cc
  | inr f ↦ let no : stop not_created ≡ stop returned = rw f at h in cc
]

attach_answered :
    (attempt : ℕ) (attached simple verified : Option Error)
    → attach_round attempt attached simple verified ≡ stop returned
    → (verified ≡ none) × ((attached ≡ none) ⊎ (simple ≡ none))
attach_answered attempt none simple verified h = (verify_answered attempt verified h, inl refl)
attach_answered attempt (some e) none verified h = (verify_answered attempt verified h, inr refl)
attach_answered attempt (some e) (some e2) verified h =
    elim (Bool-cases
      ((is_transient_error e || is_transient_error e2) && ltb attempt (subscribe_retries - 1))) [
        | inl f ↦ let no : again (2 * (attempt + 1)) ≡ stop returned = rw f at h in cc
        | inr f ↦ let no : stop (raised e2) ≡ stop returned = rw f at h in cc
      ]

verify_sleep :
    (attempt : ℕ) (verified : Option Error) (seconds : ℕ)
    → verify_round attempt verified ≡ again seconds
    → (seconds ≤ 2 * (attempt + 1)) × (attempt < subscribe_retries - 1)
verify_sleep attempt none seconds h = cc
verify_sleep attempt (some e) seconds h = elim (Bool-cases (ltb attempt (subscribe_retries - 1))) [
  | inl f ↦
      let eq : 2 * (attempt + 1) ≡ seconds = again_eq (2 * (attempt + 1)) seconds (rw f at h) in
      (omega (arith, eq), ground (arith, f))
  | inr f ↦ let no : stop not_created ≡ again seconds = rw f at h in cc
]

attach_sleep :
    (attempt : ℕ) (attached simple verified : Option Error) (seconds : ℕ)
    → attach_round attempt attached simple verified ≡ again seconds
    → (seconds ≤ 2 * (attempt + 1)) × (attempt < subscribe_retries - 1)
attach_sleep attempt none simple verified seconds h = verify_sleep attempt verified seconds h
attach_sleep attempt (some e) none verified seconds h = verify_sleep attempt verified seconds h
attach_sleep attempt (some e) (some e2) verified seconds h =
    elim (Bool-cases
      ((is_transient_error e || is_transient_error e2) && ltb attempt (subscribe_retries - 1))) [
        | inl f ↦
            let eq : 2 * (attempt + 1) ≡ seconds =
              again_eq (2 * (attempt + 1)) seconds (rw f at h) in
            (omega (arith, eq), ground (arith, f))
        | inr f ↦ let no : stop (raised e2) ≡ again seconds = rw f at h in cc
      ]

abbrev subscribe_sleep : ℕ → ℕ
subscribe_sleep attempt = if ltb attempt (subscribe_retries - 1) then 2 * (attempt + 1) else 0

module _ (attach simple verify : Calls) where
  -- A subscription is returned only in an attempt in which the server attached it, with its
  -- configuration or without, and then confirmed that the consumer exists.
  subscribe_to_sound :
      (subscribe_to attach simple verify).0 ≡ some returned
      → (i : ℕ) × (i < subscribe_retries)
        × (verify i ≡ none)
        × ((attach i ≡ none) ⊎ (simple i ≡ none))
  unfolding subscribe_to
  subscribe_to_sound h =
      let (i, lt, stops) =
        attempts-some (subscribe_round attach simple verify) subscribe_retries 0 returned h in
      let (verified, attached) = attach_answered i (attach i) (simple i) (verify i) stops in
      (i, omega (arith, lt), verified, attached)

  -- `subscribe_to` ends inside its loop, in one of five attempts, after 20 seconds of sleep at most; the
  -- error after the loop is never raised.
  subscribe_to_ends :
      ((o : Outcome) × ((subscribe_to attach simple verify).0 ≡ some o))
      × ((subscribe_to attach simple verify).1 ≤ 20)
  unfolding subscribe_to
  subscribe_to_ends = (
    attempts_end (subscribe_round attach simple verify) 4 0 (λ seconds h.
        let late = (attach_sleep 4 (attach 4) (simple 4) (verify 4) seconds h).1 in
        omega (arith, late)),
    attempts_time (subscribe_round attach simple verify) subscribe_sleep
        (λ j seconds h.
          let (le, lt) = attach_sleep j (attach j) (simple j) (verify j) seconds h in
          ground (arith, le, lt))
        5 0,
  )
