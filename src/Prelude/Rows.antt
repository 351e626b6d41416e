-- ===== src/Prelude/Rows.antt =====
-- A table as a list of rows: what `SELECT`, `UPDATE` and `DELETE` with a `WHERE` do to it.
use Prim.Native.Nat.{ℕ, ◌+◌, ◌≤◌}
use mathlib.Core.Path.{◌≡◌, refl, ap, subst, sym, ◌∙◌}
use mathlib.Core.Bool.{Bool, true, false, ◌||◌}
use mathlib.Core.Option.{Option, none, some}
use mathlib.Core.List.{List, [], ◌∷◌, ◌++◌}
use mathlib.Core.Logic.{inl, inr}
use native.Mathlib.Omega.{arith}
use geocoder_fwd.Prelude.Tests.{Bool-cases, if◌then◌else◌}
use geocoder_fwd.Prelude.Lists.{All}

module _ {ℓ} {A : Type ℓ} where
  -- The first row that matches.
  abbrev pub find_where : (A → Bool) → List A → Option A
  find_where p [] = none
  find_where p (r ∷ rows) = let rest = find_where p rows in if p r then some r else rest

  abbrev pub update_where : (A → Bool) → (A → A) → List A → List A
  update_where p f [] = []
  update_where p f (r ∷ rows) = (if p r then f r else r) ∷ update_where p f rows

  abbrev pub delete_where : (A → Bool) → List A → List A
  delete_where p [] = []
  delete_where p (r ∷ rows) = let rest = delete_where p rows in if p r then rest else r ∷ rest

  abbrev pub count_where : (A → Bool) → List A → ℕ
  count_where p [] = 0
  count_where p (r ∷ rows) = (if p r then 1 else 0) + count_where p rows

  abbrev pub exists_where : (A → Bool) → List A → Bool
  exists_where p [] = false
  exists_where p (r ∷ rows) = p r || exists_where p rows

  pub count_where-append :
      (p : A → Bool) (rows more : List A)
      → count_where p (rows ++ more) ≡ count_where p rows + count_where p more
  count_where-append p [] more = omega arith
  count_where-append p (r ∷ rows) more = omega (arith, count_where-append p rows more)

  -- Rows that count before an update count after it, if the update keeps each of them counting.
  pub count_where-update_where_le {κ} :
      (P : A → Type κ) (p q s : A → Bool) (f : A → A) (rows : List A)
      → ((r : A) → P r → p r ≡ true → q (if s r then f r else r) ≡ true)
      → All P rows
      → count_where p rows ≤ count_where q (update_where s f rows)
  count_where-update_where_le P p q s f [] h all = omega arith
  count_where-update_where_le P p q s f (r ∷ rows) h (good, all) =
      let rest = count_where-update_where_le P p q s f rows h all in
      elim (Bool-cases (p r)) [
        | inl e ↦ rw e (rw (h r good e) (omega (arith, rest)))
        | inr e ↦ rw e (omega (arith, rest))
      ]

  pub count_where-delete_where_le {κ} :
      (P : A → Type κ) (p q s : A → Bool) (rows : List A)
      → ((r : A) → P r → p r ≡ true → q r ≡ true)
      → ((r : A) → P r → p r ≡ true → s r ≡ false)
      → All P rows
      → count_where p rows ≤ count_where q (delete_where s rows)
  count_where-delete_where_le P p q s [] h k all = omega arith
  count_where-delete_where_le P p q s (r ∷ rows) h k (good, all) =
      let rest = count_where-delete_where_le P p q s rows h k all in
      elim (Bool-cases (p r)) [
        | inl e ↦ rw e (rw (k r good e) (rw (h r good e) (omega (arith, rest))))
        | inr e ↦ elim (Bool-cases (s r)) [
          | inl gone ↦ rw e (rw gone (omega (arith, rest)))
          | inr kept ↦ rw e (rw kept (omega (arith, rest)))
        ]
      ]

  pub count_where_mono :
      (p q : A → Bool) (rows : List A)
      → ((r : A) → p r ≡ true → q r ≡ true)
      → count_where p rows ≤ count_where q rows
  count_where_mono p q [] h = omega arith
  count_where_mono p q (r ∷ rows) h =
      let rest = count_where_mono p q rows h in
      elim (Bool-cases (p r)) [
        | inl e ↦ rw e (rw (h r e) (omega (arith, rest)))
        | inr e ↦ rw e (omega (arith, rest))
      ]

  pub update_where-All {κ ι} :
      (P : A → Type κ) (Q : A → Type ι) (p : A → Bool) (f : A → A) (rows : List A)
      → ((r : A) → P r → Q (if p r then f r else r))
      → All P rows
      → All Q (update_where p f rows)
  update_where-All P Q p f [] h all = tt
  update_where-All P Q p f (r ∷ rows) h (good, all) =
      (h r good, update_where-All P Q p f rows h all)

  pub delete_where-All {κ} :
      (P : A → Type κ) (p : A → Bool) (rows : List A) → All P rows → All P (delete_where p rows)
  delete_where-All P p [] all = tt
  delete_where-All P p (r ∷ rows) (good, all) = elim (Bool-cases (p r)) [
    | inl e ↦ rw e (delete_where-All P p rows all)
    | inr e ↦ rw (e, All) (good, delete_where-All P p rows all)
  ]

  -- What holds of every row holds of the one that is found.
  pub find_where-All {κ} :
      (P : A → Type κ) (p : A → Bool) (rows : List A) (r : A)
      → All P rows
      → find_where p rows ≡ some r
      → P r × (p r ≡ true)
  find_where-All P p [] r all h = cc
  find_where-All P p (x ∷ rows) r (good, all) h = elim (Bool-cases (p x)) [
    | inl e ↦
        let same : some x ≡ some r = rw e at h in
        let eq : x ≡ r = cc in (subst P eq good, subst (λ y. p y ≡ true) eq e)
    | inr e ↦ find_where-All P p rows r all (rw e at h)
  ]

  -- An update that leaves a test alone leaves what it finds alone.
  pub exists_where-update_where :
      (p s : A → Bool) (f : A → A) (rows : List A)
      → ((r : A) → p (f r) ≡ p r)
      → exists_where p (update_where s f rows) ≡ exists_where p rows
  exists_where-update_where p s f [] h = refl
  exists_where-update_where p s f (r ∷ rows) h = elim (Bool-cases (s r)) [
    | inl e ↦ rw e (rw (h r) (ap (λ b. p r || b) (exists_where-update_where p s f rows h)))
    | inr e ↦ rw e (ap (λ b. p r || b) (exists_where-update_where p s f rows h))
  ]

  pub exists_where-append :
      (p : A → Bool) (rows more : List A)
      → exists_where p rows ≡ true
      → exists_where p (rows ++ more) ≡ true
  exists_where-append p [] more h = cc
  exists_where-append p (r ∷ rows) more h = elim (Bool-cases (p r)) [
    | inl e ↦ rw e refl
    | inr e ↦ rw e (exists_where-append p rows more (rw e at h))
  ]

  pub exists_where_mono :
      (p q : A → Bool) (rows : List A)
      → ((r : A) → p r ≡ true → q r ≡ true)
      → exists_where p rows ≡ true
      → exists_where q rows ≡ true
  exists_where_mono p q [] h there = cc
  exists_where_mono p q (r ∷ rows) h there = elim (Bool-cases (q r)) [
    | inl e ↦ rw e refl
    | inr e ↦ elim (Bool-cases (p r)) [
      | inl f ↦ let no : false ≡ true = sym e ∙ h r f in cc
      | inr f ↦ rw e (exists_where_mono p q rows h (rw f at there))
    ]
  ]

  pub update_where-every {κ} :
      (Q : A → Type κ) (p : A → Bool) (f : A → A) (rows : List A)
      → ((r : A) → Q (if p r then f r else r))
      → All Q (update_where p f rows)
  update_where-every Q p f [] h = tt
  update_where-every Q p f (r ∷ rows) h = (h r, update_where-every Q p f rows h)
