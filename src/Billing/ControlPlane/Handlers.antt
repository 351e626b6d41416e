-- ===== src/Billing/ControlPlane/Handlers.antt =====
-- billing/control_plane.py, the requests that write: what a handler answers is its status, and what it
-- changes is the database, the cache of keys, APISIX and the IdP. The body of a request is well-formed
-- and its sender is allowed to send it.
pub mod Keys
pub mod Requests
pub mod Safe
pub mod Unchanged
pub mod Isolated
pub mod Refused
use geocoder_fwd.Prelude.{
  ℕ, Bool, true, false, not, ◌&&◌, Option, none, some, List, [], ◌∷◌, String, str_eq, Dict,
  if◌then◌else◌, exists_where,
}
use geocoder_fwd.Billing.Accounts.{User, TenantRow, Key, Plan, Db, Reply, ok}
use geocoder_fwd.Billing.Accounts.Users.{
  has_email, list_tenant_users, list_admins, create_tenant_user, set_user_status,
  delete_tenant_user, set_user_password, create_admin, set_admin_status, delete_admin,
  set_admin_password,
}
use geocoder_fwd.Billing.Accounts.Tenants.{
  create_tenant, get_tenant, TenantFields, is_given, known_plan, update_tenant, soft_delete_tenant,
  tenant_ids_on_plan,
}
use geocoder_fwd.Billing.Accounts.Plans.{create_plan, PlanFields, update_plan, delete_plan}
use geocoder_fwd.Billing.ControlPlane.{Apisix, Cache, sync_tenant, invalidate_tenant_cache}

-- What the handlers use: `security`, the weights, how many calls of APISIX succeed for a tenant, and the
-- calls of the IdP, which say whether they succeeded; one that raises may have changed something.
pub record Services (S : Type 0) : Type 0 where
  pub hash_password : String → String
  pub decrypt_key : String → String
  pub weights : Dict ℕ
  pub reached : String → ℕ
  pub provision_admin_user : String → String → S → Bool × S
  -- By email, password, tenant and display name.
  pub provision_tenant_user : String → String → String → String → S → Bool × S
  pub set_user_active : String → Bool → S → Bool × S
  pub idp_delete_user : String → S → Bool × S
  pub idp_set_password : String → String → S → Bool × S
  pub reset_user_mfa : String → S → Bool × S

pub record World (S : Type 0) : Type 0 where
  pub db : Db
  pub cache : Cache
  pub apisix : Apisix
  pub idp : S

-- A call of the database, and what follows it when it raises nothing. `Conflict` and `NotFound` become 409
-- and 404, and an error that is not caught 500.
abbrev pub answered :
    {A : Type 0} → {S : Type 0} → Reply A × Db → (A → World S → ℕ × World S) → World S → ℕ × World S
answered (ok a, db) next w = next a (record w { db = db })
answered (Reply.not_found, db) next w = (404, record w { db = db })
answered (Reply.conflict, db) next w = (409, record w { db = db })
answered (Reply.in_use n, db) next w = (409, record w { db = db })
answered (Reply.violated, db) next w = (500, record w { db = db })

-- A call of the IdP, and what follows when it raises nothing; `ZitadelError` becomes 502.
abbrev pub identified : {S : Type 0} → Bool × S → (World S → ℕ × World S) → World S → ℕ × World S
identified (true, idp) next w = next (record w { idp = idp })
identified (false, idp) next w = (502, record w { idp = idp })

-- The end of a handler.
abbrev pub done : {S : Type 0} → ℕ → World S → ℕ × World S
done status w = (status, w)

module _ {S : Type 0} (env : Services S) where
  -- The IdP's call as the last step.
  abbrev pub then_idp : {A : Type 0} → ℕ → (S → Bool × S) → A → World S → ℕ × World S
  then_idp status idp_call _ w = identified (idp_call w.idp) (done status) w

  unfoldable pub add_admin : String → String → World S → ℕ × World S
  add_admin email password w =
      answered (create_admin email (env.hash_password password) w.db)
        (then_idp 201 (env.provision_admin_user email password)) w

  unfoldable pub modify_admin : String → String → World S → ℕ × World S
  modify_admin email status w =
      answered (set_admin_status email status w.db)
        (then_idp 200 (env.set_user_active email (str_eq status "active"))) w

  unfoldable pub remove_admin : String → World S → ℕ × World S
  remove_admin email w =
      answered (delete_admin email w.db) (then_idp 204 (env.idp_delete_user email)) w

  unfoldable pub reset_admin_password : String → String → World S → ℕ × World S
  reset_admin_password email new_password w =
      answered (set_admin_password email (env.hash_password new_password) w.db)
        (then_idp 204 (env.idp_set_password email new_password)) w

  unfoldable pub reset_admin_mfa : String → World S → ℕ × World S
  unfolding list_admins
  reset_admin_mfa email w =
      if not (exists_where (has_email email) (list_admins w.db))
      then (404, w)
      else then_idp 204 (env.reset_user_mfa email) tt w

  abbrev pub synced : String → World S → World S
  synced tenant_id w = record w {
    apisix =
        sync_tenant env.decrypt_key env.weights (env.reached tenant_id) tenant_id w.db w.apisix;
  }

  abbrev pub invalidated : String → World S → World S
  invalidated tenant_id w = record w { cache = invalidate_tenant_cache tenant_id w.db w.cache }

  unfoldable pub post_tenant :
      String → String → Option String → String → String → String → World S → ℕ × World S
  post_tenant new_id name contact_email plan_id admin_email admin_password w =
      answered
        (create_tenant new_id name contact_email plan_id admin_email
          (env.hash_password admin_password) w.db)
        (λ (t : TenantRow) (w' : World S).
          identified (env.provision_tenant_user admin_email admin_password t.id name w'.idp)
            (λ (w'' : World S). (201, synced t.id w'')) w')
        w

  unfoldable pub patch_tenant : String → TenantFields → World S → ℕ × World S
  patch_tenant tenant_id fields w =
      if is_given fields.plan_id && not (known_plan fields.plan_id w.db)
      then (400, w)
      else answered (update_tenant tenant_id fields w.db)
          (λ (t : TenantRow) (w' : World S). (200, synced tenant_id (invalidated tenant_id w'))) w

  -- The identities of a deleted tenant: whether all went, and the IdP after.
  unfoldable pub idp_cleanup : List String → S → Bool × S
  idp_cleanup [] idp = (true, idp)
  idp_cleanup (email ∷ emails) idp =
      let (gone, idp') = env.idp_delete_user email idp in
      let (rest, idp'') = idp_cleanup emails idp' in (gone && rest, idp'')

  unfoldable pub remove_tenant : String → World S → ℕ × World S
  remove_tenant tenant_id w =
      answered (soft_delete_tenant tenant_id w.db)
        (λ (emails : List String) (w' : World S).
          then_idp 204 (idp_cleanup emails) tt (synced tenant_id (invalidated tenant_id w')))
        w

  -- A query of the database.
  abbrev pub asked : {A : Type 0} → Reply A → Db → Reply A × Db
  asked r db = (r, db)

  unfoldable pub add_tenant_user : String → String → String → World S → ℕ × World S
  add_tenant_user tenant_id email password w =
      answered (asked (get_tenant tenant_id false w.db) w.db)
        (λ (t : TenantRow) (w' : World S).
          answered
            (create_tenant_user tenant_id email (env.hash_password password) "tenant_user" w'.db)
            (then_idp 201 (env.provision_tenant_user email password tenant_id email)) w')
        w

  unfoldable pub modify_tenant_user : String → String → String → World S → ℕ × World S
  modify_tenant_user tenant_id email status w =
      answered (set_user_status tenant_id email status w.db)
        (then_idp 200 (env.set_user_active email (str_eq status "active"))) w

  unfoldable pub remove_tenant_user : String → String → World S → ℕ × World S
  remove_tenant_user tenant_id email w =
      answered (delete_tenant_user tenant_id email w.db) (then_idp 204 (env.idp_delete_user email))
        w

  unfoldable pub reset_password : String → String → String → World S → ℕ × World S
  unfolding list_tenant_users
  reset_password tenant_id email new_password w =
      if not (exists_where (has_email email) (list_tenant_users tenant_id w.db))
      then (404, w)
      else answered (set_user_password email tenant_id (env.hash_password new_password) w.db)
          (then_idp 204 (env.idp_set_password email new_password)) w

  unfoldable pub reset_tenant_user_mfa : String → String → World S → ℕ × World S
  unfolding list_tenant_users
  reset_tenant_user_mfa tenant_id email w =
      if not (exists_where (has_email email) (list_tenant_users tenant_id w.db))
      then (404, w)
      else then_idp 204 (env.reset_user_mfa email) tt w

  unfoldable pub post_plan : Plan → World S → ℕ × World S
  post_plan plan w = answered (create_plan plan w.db) (λ (p : Plan). done 201) w

  unfoldable pub sync_all : List String → World S → World S
  sync_all [] w = w
  sync_all (tenant_id ∷ ids) w = sync_all ids (synced tenant_id w)

  unfoldable pub patch_plan : String → PlanFields → World S → ℕ × World S
  unfolding tenant_ids_on_plan
  patch_plan plan_id fields w =
      answered (update_plan plan_id fields w.db)
        (λ (p : Plan) (w' : World S). (200, sync_all (tenant_ids_on_plan plan_id w'.db) w')) w

  unfoldable pub remove_plan : String → World S → ℕ × World S
  remove_plan plan_id w = answered (delete_plan plan_id w.db) (λ _. done 204) w
