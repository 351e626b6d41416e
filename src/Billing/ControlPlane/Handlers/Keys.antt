-- ===== src/Billing/ControlPlane/Handlers/Keys.antt =====
-- billing/control_plane.py, the requests that write to a tenant's keys, and `login`.
use geocoder_fwd.Prelude.{
  ℕ, Bool, not, Option, none, some, List, [], ◌∷◌, String, str_eq, take, if◌then◌else◌,
}
use geocoder_fwd.Billing.Accounts.{User, Key, Plan, Db, Reply, ok}
use geocoder_fwd.Billing.Accounts.Users.{get_user_by_email}
use geocoder_fwd.Billing.Accounts.Tenants.{tenant_with_plan}
use geocoder_fwd.Billing.Accounts.Keys.{NewKey, create_key, KeyFields, update_key, soft_delete_key}
use geocoder_fwd.Billing.ControlPlane.{
  ApisixCall, put_consumer, delete_consumer, Cache, call_all, group_for, consumer_with,
  invalidate_key, refresh_cache,
}
use geocoder_fwd.Billing.ControlPlane.Handlers.{Services, World, answered}

module _ {S : Type 0} (env : Services S) where
  -- The group and the consumer of a key with this text; nothing where `tenant_with_plan` raises.
  abbrev pub registration : String → String → String → Reply (Option Plan) → List ApisixCall
  registration tenant_id key_id api_key (ok plan) =
      let group = group_for env.decrypt_key env.weights tenant_id plan in
      group.1
      ∷ put_consumer (consumer_with env.decrypt_key env.weights group.0 tenant_id key_id api_key)
      ∷ []
  registration tenant_id key_id api_key _ = []

  -- The first calls succeed, and an error of the next one is only logged.
  abbrev pub projected : String → List ApisixCall → World S → World S
  projected tenant_id calls w = record w {
    apisix = call_all (take (env.reached tenant_id) calls) w.apisix;
  }

  -- After `_refresh_cache`, which may raise.
  abbrev pub refreshed : Option Cache → (World S → ℕ × World S) → World S → ℕ × World S
  refreshed none next w = (500, w)
  refreshed (some cache) next w = next (record w { cache = cache })

  unfoldable pub post_key : NewKey → String → String → List String → World S → ℕ × World S
  unfolding refresh_cache call_all
  post_key new tenant_id name scopes w =
      answered (create_key new tenant_id name scopes w.db)
        (λ (k : Key) (w' : World S).
          refreshed (refresh_cache k.key_hash k.tenant_id w'.db w'.cache)
            (λ (w'' : World S). (
              201,
              projected tenant_id
                  (registration tenant_id k.id new.full (tenant_with_plan tenant_id w''.db)) w'',
            ))
            w')
        w

  -- An active key whose text is stored is registered, any other is removed.
  abbrev pub update_calls : String → Key → Option String → Db → List ApisixCall
  update_calls tenant_id k none db = delete_consumer k.id ∷ []
  update_calls tenant_id k (some enc) db =
      if str_eq k.status "active"
      then registration tenant_id k.id (env.decrypt_key enc) (tenant_with_plan tenant_id db)
      else delete_consumer k.id ∷ []

  unfoldable pub patch_key : String → String → KeyFields → World S → ℕ × World S
  unfolding refresh_cache call_all
  patch_key key_id tenant_id fields w =
      answered (update_key key_id tenant_id fields w.db)
        (λ (k : Key) (w' : World S).
          refreshed (refresh_cache k.key_hash k.tenant_id w'.db w'.cache)
            (λ (w'' : World S).
              (200, projected tenant_id (update_calls tenant_id k k.key_enc w''.db) w''))
            w')
        w

  unfoldable pub remove_key : String → String → World S → ℕ × World S
  unfolding call_all
  remove_key key_id tenant_id w =
      answered (soft_delete_key key_id tenant_id w.db)
        (λ (k : Key) (w' : World S). (
          204,
          projected tenant_id (delete_consumer k.id ∷ [])
              (record w' { cache = invalidate_key k.key_hash w'.cache }),
        ))
        w

-- `login`: the status, and the account that the token is for.
abbrev pub checked : (String → String → Bool) → String → Option User → ℕ × Option User
checked verify_password password none = (401, none)
checked verify_password password (some user) =
    if not (verify_password password user.password_hash)
    then (401, none)
    else if str_eq user.status "disabled"
    then (403, none)
    else (200, some user)

unfoldable pub login : (String → String → Bool) → String → String → Db → ℕ × Option User
unfolding get_user_by_email
login verify_password email password db =
    checked verify_password password (get_user_by_email email db)
