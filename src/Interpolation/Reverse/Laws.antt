-- ===== src/Interpolation/Reverse/Laws.antt =====
-- shared/interpolation.py: the number that `reverse_interpolate` gives.
use geocoder_fwd.Prelude.{
  ℕ, ◌+◌, ◌-◌, ◌%◌, ◌≤◌, ◌≡◌, refl, max, Bool, true, false, List, ◌==◌, if◌then◌else◌, take, map,
  arith, Bool-cases, inl, inr,
}
use geocoder_fwd.Prelude.Int.{ℤ, pos, negsuc}
use geocoder_fwd.Interpolation.{Address, Parity, odd, even, parity, parity_eq}
use geocoder_fwd.Interpolation.Line.{Floats, nat}
use geocoder_fwd.Interpolation.Reverse.{at_least_one, dominant, nudge, reverse_number}

at_least_one_pos : (z : ℤ) → 1 ≤ at_least_one z
at_least_one_pos (pos n) = omega arith
at_least_one_pos (negsuc n) = omega arith

parity-odd : (n : ℕ) → n % 2 ≡ 1 → parity n ≡ odd
parity-odd n h = rw h refl

parity-even : (n : ℕ) → n % 2 ≡ 0 → parity n ≡ even
parity-even n h = rw h refl

-- The parity changes with every step.
parity_flip : (n : ℕ) (side : Parity) → parity_eq (parity n) side ≡ false → parity (n + 1) ≡ side
parity_flip n odd h = elim (Bool-cases (n % 2 == 0)) [
  | inl e ↦ parity-odd (n + 1) (ground (arith, e))
  | inr e ↦ let no : true ≡ false = rw e at h in cc
]
parity_flip n even h = elim (Bool-cases (n % 2 == 0)) [
  | inl e ↦ let no : true ≡ false = rw e at h in cc
  | inr e ↦ parity-even (n + 1) (ground (arith, e))
]

parity_eq_sound : (a b : Parity) → parity_eq a b ≡ true → a ≡ b
parity_eq_sound odd odd h = refl
parity_eq_sound even even h = refl
parity_eq_sound odd even h = cc
parity_eq_sound even odd h = cc

nudge-parity : (side : Parity) (above : Bool) (est : ℕ) → parity (nudge side above est) ≡ side
unfolding nudge
nudge-parity side above est = elim (Bool-cases (parity_eq (parity est) side)) [
  | inl e ↦ rw e (parity_eq_sound (parity est) side e)
  | inr e ↦
      let moved : ℕ = if above then est + 1 else max 1 (est - 1) in
      elim (Bool-cases (parity_eq (parity moved) side)) [
        | inl f ↦ rw (e, f) (parity_eq_sound (parity moved) side f)
        | inr f ↦ rw (e, f) (parity_flip moved side f)
      ]
]

nudge_pos : (side : Parity) (above : Bool) (est : ℕ) → 1 ≤ est → 1 ≤ nudge side above est
unfolding nudge
nudge_pos side above est h = ground arith

parity_eq_of : (n : ℕ) (side : Parity) → parity n ≡ side → parity_eq (parity n) side ≡ true
parity_eq_of n odd h = rw h refl
parity_eq_of n even h = rw h refl

-- One step up, down, or up from 1 is enough.
nudge_near :
    (side : Parity) (above : Bool) (est : ℕ)
    → 1 ≤ est
    → (nudge side above est ≤ est + 1) × (est ≤ nudge side above est + 1)
unfolding nudge
nudge_near side true est h = elim (Bool-cases (parity_eq (parity est) side)) [
  | inl e ↦ rw e (omega arith, omega arith)
  | inr e ↦ rw (e, parity_eq_of (est + 1) side (parity_flip est side e)) (omega arith, omega arith)
]
nudge_near side false est h = elim (Bool-cases (parity_eq (parity est) side)) [
  | inl e ↦ rw e (omega arith, omega arith)
  | inr e ↦ elim (Bool-cases (parity_eq (parity (max 1 (est - 1))) side)) [
    | inl f ↦ rw (e, f) (omega (arith, h), omega (arith, h))
    | inr f ↦ rw (e, f) (omega (arith, h), omega (arith, h))
  ]
]

module _ {F : Type 0} (m : Floats F) where
  -- The number is of the side that most of the six nearest have, positive, and at most 1 away from the
  -- rounded estimate.
  abbrev pub IsNumber : Parity → List (Address F) → F → ℕ → Type 0
  IsNumber tie addresses raw n =
      (parity n ≡ dominant tie (map (λ a. parity a.0) (take 6 addresses)))
      × (1 ≤ n)
      × (n ≤ at_least_one (m.round raw) + 1)
      × (at_least_one (m.round raw) ≤ n + 1)

  -- Whatever the floats are, the house number that `reverse_interpolate` settles on is at least 1, has
  -- the parity of most of the six nearest addresses, and is the rounded estimate or next to it.
  reverse_number_lem :
      (tie : Parity) (addresses : List (Address F)) (raw : F)
      → IsNumber tie addresses raw (reverse_number m tie addresses raw)
  unfolding reverse_number
  reverse_number_lem tie addresses raw =
      let side : Parity = dominant tie (map (λ a. parity a.0) (take 6 addresses)) in
      let est : ℕ = at_least_one (m.round raw) in
      let above : Bool = m.lt (nat m est) raw in
      let near = nudge_near side above est (at_least_one_pos (m.round raw)) in
      (
        nudge-parity side above est,
        nudge_pos side above est (at_least_one_pos (m.round raw)),
        near.0,
        near.1,
      )
