-- ===== src/Billing/ControlPlane/Handlers/Isolated.antt =====
-- billing/control_plane.py: what the requests of a tenant do to the keys of the others.
use geocoder_fwd.Prelude.{
  ℕ, ◌≡◌, refl, sym, ap, ◌∙◌, Bool, true, false, not, ◌&&◌, Option, none, some, List, [], ◌∷◌, ◌++◌,
  String, str_eq, eq_iff, if◌then◌else◌, Bool-cases, inl, inr, arith, delete_where, update_where,
  exists_where,
}
use geocoder_fwd.Billing.Accounts.{Key, Db, Reply, ok}
use geocoder_fwd.Billing.Accounts.Tenants.{has_id, is_given, delete_key}
use geocoder_fwd.Billing.Accounts.Keys.{
  has_key_id, live_key, NewKey, new_row, KeyFields, set_key_fields, key_name_taken, is_taken,
  insert_key, create_key, clashes, update_key, soft_delete_key,
}
use geocoder_fwd.Billing.ControlPlane.{Cache, refresh_cache}
use geocoder_fwd.Billing.ControlPlane.Handlers.{Services, World, answered}
use geocoder_fwd.Billing.ControlPlane.Handlers.Keys.{refreshed, post_key, patch_key, remove_key}
use geocoder_fwd.Billing.ControlPlane.Handlers.Requests.{
  Request, key_created, key_updated, key_deleted, handle,
}

-- The tenant whose key it is, for the requests that a tenant sends.
abbrev pub sender : Request → Option String
sender (key_created new tenant_id name scopes) = some tenant_id
sender (key_updated key_id tenant_id fields) = some tenant_id
sender (key_deleted key_id tenant_id) = some tenant_id
sender _ = none

abbrev foreign : String → Key → Bool
foreign tenant_id k = not (str_eq k.tenant_id tenant_id)

abbrev pub keys_of : String → Db → List Key
keys_of tenant_id db = delete_where (foreign tenant_id) db.keys

delete_where-update_where :
    {A : Type 0} (q p : A → Bool) (f : A → A) (rows : List A)
    → ((r : A) → p r ≡ true → q r ≡ true)
    → ((r : A) → q (f r) ≡ q r)
    → delete_where q (update_where p f rows) ≡ delete_where q rows
delete_where-update_where q p f [] h kept = refl
delete_where-update_where q p f (r ∷ rows) h kept =
    let rest = delete_where-update_where q p f rows h kept in
    elim (Bool-cases (p r)) [
      | inl e ↦ rw (e, h r e) (rw (kept r) (rw (h r e) rest))
      | inr e ↦ rw e (ap (λ rows'. if q r then rows' else r ∷ rows') rest)
    ]

delete_where-append :
    {A : Type 0} (q : A → Bool) (rows : List A) (r : A)
    → q r ≡ true
    → delete_where q (rows ++ (r ∷ [])) ≡ delete_where q rows
delete_where-append q [] r h = rw h refl
delete_where-append q (x ∷ rows) r h =
    ap (λ rows'. if q x then rows' else x ∷ rows') (delete_where-append q rows r h)

-- Neither call touches what the other tenants see.
module _ (tenant_id other : String) (db : Db) (apart : str_eq tenant_id other ≡ false) where
  live_key-foreign :
      (key_id : String) (k : Key) → live_key key_id tenant_id k ≡ true → foreign other k ≡ true
  live_key-foreign key_id k h = elim (Bool-cases (str_eq k.tenant_id tenant_id)) [
    | inl e ↦
        let same : k.tenant_id ≡ tenant_id = ground (arith, eq_iff k.tenant_id tenant_id, e) in
        ap (λ x. not (str_eq x other)) same ∙ ap not apart
    | inr e ↦ elim (Bool-cases (has_key_id key_id k)) [
      | inl f ↦ let no : false ≡ true = rw (f, e) at h in cc
      | inr f ↦ let no : false ≡ true = rw f at h in cc
    ]
  ]

  create_key-keys_of :
      (new : NewKey) (name : String) (scopes : List String)
      → keys_of other (create_key new tenant_id name scopes db).1 ≡ keys_of other db
  unfolding create_key insert_key
  create_key-keys_of new name scopes =
      let row = new_row new tenant_id name scopes in
      elim (Bool-cases (key_name_taken tenant_id name none db)) [
        | inl e ↦ rw e refl
        | inr e ↦ elim (Bool-cases (is_taken row db)) [
          | inl f ↦ rw (e, f) refl
          | inr f ↦ elim (Bool-cases (exists_where (has_id tenant_id) db.tenants)) [
            | inl g ↦ rw (e, f, g) (delete_where-append (foreign other) db.keys row (ap not apart))
            | inr g ↦ rw (e, f, g) refl
          ]
        ]
      ]

  update_key-keys_of :
      (key_id : String) (fields : KeyFields)
      → keys_of other (update_key key_id tenant_id fields db).1 ≡ keys_of other db
  unfolding update_key
  update_key-keys_of key_id fields = elim (Bool-cases (clashes fields.name key_id tenant_id db)) [
    | inl e ↦ rw e refl
    | inr e ↦ elim (Bool-cases (not (is_given fields.name) && not (is_given fields.status))) [
      | inl f ↦ rw (e, f) refl
      | inr f ↦ elim (Bool-cases (exists_where (live_key key_id tenant_id) db.keys)) [
        | inr g ↦ rw (e, f, g) refl
        | inl g ↦
            rw (e, f, g)
              (delete_where-update_where (foreign other) (live_key key_id tenant_id)
                (set_key_fields fields) db.keys (live_key-foreign key_id) (λ _. refl))
      ]
    ]
  ]

  soft_delete_key-keys_of :
      (key_id : String) → keys_of other (soft_delete_key key_id tenant_id db).1 ≡ keys_of other db
  unfolding soft_delete_key
  soft_delete_key-keys_of key_id =
      elim (Bool-cases (exists_where (live_key key_id tenant_id) db.keys)) [
        | inr g ↦ rw g refl
        | inl g ↦ rw g (
            delete_where-update_where (foreign other) (live_key key_id tenant_id) delete_key db.keys
              (live_key-foreign key_id) (λ _. refl))
      ]

-- What follows the call leaves the database alone.
answered-db :
    {A : Type 0} {S : Type 0} (r : Reply A × Db) (next : A → World S → ℕ × World S) (w : World S)
    → ((a : A) (w' : World S) → (next a w').1.db ≡ w'.db)
    → (answered r next w).1.db ≡ r.1
answered-db (ok a, db) next w h = h a (record w { db = db })
answered-db (Reply.not_found, db) next w h = refl
answered-db (Reply.conflict, db) next w h = refl
answered-db (Reply.in_use n, db) next w h = refl
answered-db (Reply.violated, db) next w h = refl

refreshed-db :
    {S : Type 0} (env : Services S) (cache : Option Cache) (next : World S → ℕ × World S)
    (w : World S)
    → ((w' : World S) → (next w').1.db ≡ w'.db)
    → (refreshed env cache next w).1.db ≡ w.db
refreshed-db env none next w h = refl
refreshed-db env (some cache) next w h = h (record w { cache = cache })

-- Whatever a tenant asks for about its keys, and whatever the answer, the keys of every other tenant stay
-- as they are.
pub handle-keys_of :
    {S : Type 0} (env : Services S) (request : Request) (w : World S) (tenant_id other : String)
    → sender request ≡ some tenant_id
    → str_eq tenant_id other ≡ false
    → keys_of other (handle env request w).1.db ≡ keys_of other w.db
unfolding handle post_key patch_key remove_key
handle-keys_of env (key_created new t name scopes) w tenant_id other from apart =
    let same : tenant_id ≡ t = cc in
    let apart' : str_eq t other ≡ false = ap (λ x. str_eq x other) (sym same) ∙ apart in
    ap (keys_of other) (
      answered-db (create_key new t name scopes w.db) _ w (λ k w'.
        refreshed-db env (refresh_cache k.key_hash k.tenant_id w'.db w'.cache) _ w' (λ _. refl)))
    ∙ create_key-keys_of t other w.db apart' new name scopes
handle-keys_of env (key_updated key_id t fields) w tenant_id other from apart =
    let same : tenant_id ≡ t = cc in
    let apart' : str_eq t other ≡ false = ap (λ x. str_eq x other) (sym same) ∙ apart in
    ap (keys_of other) (
      answered-db (update_key key_id t fields w.db) _ w (λ k w'.
        refreshed-db env (refresh_cache k.key_hash k.tenant_id w'.db w'.cache) _ w' (λ _. refl)))
    ∙ update_key-keys_of t other w.db apart' key_id fields
handle-keys_of env (key_deleted key_id t) w tenant_id other from apart =
    let same : tenant_id ≡ t = cc in
    let apart' : str_eq t other ≡ false = ap (λ x. str_eq x other) (sym same) ∙ apart in
    ap (keys_of other) (answered-db (soft_delete_key key_id t w.db) _ w (λ k w'. refl))
    ∙ soft_delete_key-keys_of t other w.db apart' key_id
handle-keys_of env _ w tenant_id other from apart =
    let no : Option.none ≡ some tenant_id = from in cc
