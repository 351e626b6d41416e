-- ===== src/Billing/ControlPlane/Handlers/Safe.antt =====
-- billing/control_plane.py: the answers 400, 404 and 409, step by step.
use geocoder_fwd.Prelude.{
  ℕ, ◌≡◌, refl, sym, ap, ◌∙◌, Bool, true, false, ◌&&◌, Option, none, some, leb, ltb, if◌then◌else◌,
}
use geocoder_fwd.Billing.Accounts.{Db, Reply, ok}
use geocoder_fwd.Billing.Accounts.Failures.{IsRolledBack}
use geocoder_fwd.Billing.ControlPlane.{Cache}
use geocoder_fwd.Billing.ControlPlane.Handlers.{Services, World, answered, identified, then_idp}
use geocoder_fwd.Billing.ControlPlane.Handlers.Keys.{refreshed}

-- A status of 400 to 499.
abbrev pub refuses : ℕ → Bool
refuses status = leb 400 status && ltb status 500

module _ {S : Type 0} where
  -- A handler's answer in a state: when it refuses, nothing has changed.
  abbrev pub IsSafe : World S → ℕ × World S → Type 0
  IsSafe w answer = refuses answer.0 ≡ true → answer.1 ≡ w

  pub answered-IsSafe :
      {A : Type 0} (r : Reply A × Db) (next : A → World S → ℕ × World S) (w : World S)
      → IsRolledBack w.db r
      → ((a : A) (w' : World S) → refuses (next a w').0 ≡ false)
      → IsSafe w (answered r next w)
  answered-IsSafe (ok a, db) next w back never h =
      let no : false ≡ true = sym (never a (record w { db = db })) ∙ h in cc
  answered-IsSafe (Reply.not_found, db) next w back never h =
      ap (λ d. record w { db = d }) (back refl)
  answered-IsSafe (Reply.conflict, db) next w back never h =
      ap (λ d. record w { db = d }) (back refl)
  answered-IsSafe (Reply.in_use n, db) next w back never h =
      ap (λ d. record w { db = d }) (back refl)
  answered-IsSafe (Reply.violated, db) next w back never h =
      ap (λ d. record w { db = d }) (back refl)

  pub asked-IsSafe :
      {A : Type 0} (r : Reply A) (next : A → World S → ℕ × World S) (w : World S)
      → ((a : A) → IsSafe w (next a w))
      → IsSafe w (answered (r, w.db) next w)
  asked-IsSafe (ok a) next w safe h = safe a h
  asked-IsSafe Reply.not_found next w safe h = refl
  asked-IsSafe Reply.conflict next w safe h = refl
  asked-IsSafe (Reply.in_use n) next w safe h = refl
  asked-IsSafe Reply.violated next w safe h = refl

  pub guarded-IsSafe :
      (b : Bool) (status : ℕ) (w : World S) (answer : ℕ × World S)
      → IsSafe w answer
      → IsSafe w (if b then (status, w) else answer)
  guarded-IsSafe true status w answer safe h = refl
  guarded-IsSafe false status w answer safe h = safe h

  -- The IdP's step ends with the success of the handler, or 502.
  pub identified-refuses :
      (b : Bool) (idp : S) (status : ℕ) (f : World S → World S) (w : World S)
      → refuses status ≡ false
      → refuses (identified (b, idp) (λ (w' : World S). (status, f w')) w).0 ≡ false
  identified-refuses true idp status f w h = h
  identified-refuses false idp status f w h = refl

module _ {S : Type 0} (env : Services S) where
  pub refreshed-refuses :
      (cache : Option Cache) (status : ℕ) (f : World S → World S) (w : World S)
      → refuses status ≡ false
      → refuses (refreshed env cache (λ (w' : World S). (status, f w')) w).0 ≡ false
  refreshed-refuses none status f w h = refl
  refreshed-refuses (some cache) status f w h = h

  pub then_idp-refuses :
      {A : Type 0} (status : ℕ) (idp_call : S → Bool × S) (a : A) (w : World S)
      → refuses status ≡ false
      → refuses (then_idp env status idp_call a w).0 ≡ false
  then_idp-refuses status idp_call a w h =
      identified-refuses (idp_call w.idp).0 (idp_call w.idp).1 status (λ (w' : World S). w') w h

  -- The database's call, then the IdP's.
  pub with_idp-IsSafe :
      {A : Type 0} (r : Reply A × Db) (status : ℕ) (idp_call : S → Bool × S) (w : World S)
      → IsRolledBack w.db r
      → refuses status ≡ false
      → IsSafe w (answered r (then_idp env status idp_call) w)
  with_idp-IsSafe r status idp_call w back fine =
      answered-IsSafe r (then_idp env status idp_call) w back
        (λ a w'. then_idp-refuses status idp_call a w' fine)

  pub idp-IsSafe :
      (status : ℕ) (idp_call : S → Bool × S) (w : World S)
      → refuses status ≡ false
      → IsSafe w (then_idp env status idp_call tt w)
  idp-IsSafe status idp_call w fine h =
      let no : false ≡ true = sym (then_idp-refuses status idp_call tt w fine) ∙ h in cc
