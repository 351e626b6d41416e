-- ===== src/Traffic/Writer/Memory.antt =====
-- The mapped file as an array of bytes, and an action on it that may raise.
use geocoder_fwd.Prelude.{
  ℕ, zero, suc, ◌+◌, ◌≤◌, ◌<◌, ◌≡◌, refl, List, [], ◌∷◌, length, ◌==◌, if◌then◌else◌, arith, ◌⊎◌,
  inl, inr,
}

pub record Mmap : Type 0 where
  pub size : ℕ
  pub byte : ℕ → ℕ

-- `bytes` written from `off` on.
unfoldable pub write_from : List ℕ → ℕ → (ℕ → ℕ) → ℕ → ℕ
write_from [] off f j = f j
write_from (b ∷ bytes) off f j = if j == off then b else write_from bytes (off + 1) f j

-- `mm[off : off + n]`
unfoldable pub read : ℕ → ℕ → (ℕ → ℕ) → List ℕ
read zero off f = []
read (suc n) off f = f off ∷ read n (off + 1) f

-- Outside the bytes written nothing changes.
pub write_from_outside :
    (bytes : List ℕ) (off : ℕ) (f : ℕ → ℕ) (j : ℕ)
    → (j < off) ⊎ (off + length bytes ≤ j)
    → write_from bytes off f j ≡ f j
unfolding write_from
write_from_outside [] off f j h = refl
write_from_outside (b ∷ bytes) off f j (inl h) =
    ground (arith, write_from_outside bytes (off + 1) f j (inl (omega arith)))
write_from_outside (b ∷ bytes) off f j (inr h) =
    ground (arith, write_from_outside bytes (off + 1) f j (inr (omega arith)))

-- A range reads the same where its bytes agree.
pub read_agree :
    (n off : ℕ) (f g : ℕ → ℕ)
    → ((j : ℕ) → off ≤ j → j < off + n → f j ≡ g j)
    → read n off f ≡ read n off g
unfolding read
read_agree zero off f g h = refl
read_agree (suc n) off f g h =
    let rest = read_agree n (off + 1) f g (λ j lo hi. h j (omega arith) (omega arith)) in
    let first = h off (omega arith) (omega arith) in λ i. first i ∷ rest i

-- What was written is read back.
pub read-write_from :
    (bytes : List ℕ) (off : ℕ) (f : ℕ → ℕ)
    → read (length bytes) off (write_from bytes off f) ≡ bytes
unfolding read write_from
read-write_from [] off f = refl
read-write_from (b ∷ bytes) off f =
    let later =
      read_agree (length bytes) (off + 1) (write_from (b ∷ bytes) off f)
        (write_from bytes (off + 1) f) (λ j lo hi. ground arith) in
    let first : write_from (b ∷ bytes) off f off ≡ b = ground arith in
    cc (first, later, read-write_from bytes (off + 1) f)
