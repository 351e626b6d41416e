-- ===== src/Prelude/Tuples.antt =====
-- Equations between tuples, part by part.
use mathlib.Core.Path.{◌≡◌}

pub pair_path {ℓ κ} :
    {A : Type ℓ} {B : Type κ} {a a' : A} {b b' : B}
    → a ≡ a'
    → b ≡ b'
    → ◌≡◌ {A = A × B} (a, b) (a', b')
pair_path p q = λ i. (p i, q i)

pub triple_path {ℓ κ ι} :
    {A : Type ℓ} {B : Type κ} {C : Type ι} {a a' : A} {b b' : B} {c c' : C}
    → a ≡ a'
    → b ≡ b'
    → c ≡ c'
    → ◌≡◌ {A = A × B × C} (a, b, c) (a', b', c')
triple_path p q r = λ i. (p i, q i, r i)
