-- ===== src/Billing/ControlPlane/Sync.antt =====
-- billing/control_plane.py, `_sync_tenant`: the consumers of a tenant's keys.
use geocoder_fwd.Prelude.{
  ℕ, ◌≡◌, refl, ap, ◌∙◌, Bool, true, false, Option, none, some, List, [], ◌∷◌, String, str_eq,
  eq_iff, Dict, if◌then◌else◌, map, take, find_where, delete_where, All, length, arith, Bool-cases,
  Option-cases, inl, inr,
}
use geocoder_fwd.Billing.Accounts.{TenantRow, Key, Plan, Db, ok}
use geocoder_fwd.Billing.Accounts.Tenants.{get_tenant, tenant_with_plan}
use geocoder_fwd.Billing.Accounts.Keys.{list_keys}
use geocoder_fwd.Billing.ControlPlane.{
  Apisix, Consumer, ApisixCall, put_group, delete_group, put_consumer, delete_consumer, of_key,
  call, call_all, key_call, group_for, wanted, active_calls, calls_with, calls_for, sync_calls,
  sync_tenant,
}

abbrev pub consumer_of : String → Apisix → Option Consumer
consumer_of key_id a = find_where (of_key key_id) a.consumers

-- What a call does to the consumer of a key.
abbrev pub IsOther : String → ApisixCall → Type 0
IsOther key_id (put_group g) = Unit
IsOther key_id (delete_group t) = Unit
IsOther key_id (put_consumer c) = str_eq c.key_id key_id ≡ false
IsOther key_id (delete_consumer k) = str_eq k key_id ≡ false

find_deleted :
    (key_id : String) (cs : List Consumer)
    → find_where (of_key key_id) (delete_where (of_key key_id) cs) ≡ none
find_deleted key_id [] = refl
find_deleted key_id (c ∷ cs) = elim (Bool-cases (of_key key_id c)) [
  | inl e ↦ rw e (find_deleted key_id cs)
  | inr e ↦ rw e (rw e (find_deleted key_id cs))
]

find_other :
    (key_id other : String) (cs : List Consumer)
    → str_eq other key_id ≡ false
    → find_where (of_key key_id) (delete_where (of_key other) cs) ≡ find_where (of_key key_id) cs
find_other key_id other [] away = refl
find_other key_id other (c ∷ cs) away = elim (Bool-cases (of_key other c)) [
  | inr e ↦
      rw e (ap (λ rest. if of_key key_id c then some c else rest) (find_other key_id other cs away))
  | inl e ↦
      let same : c.key_id ≡ other = ground (arith, eq_iff c.key_id other, e) in
      let f : of_key key_id c ≡ false = ap (λ x. str_eq x key_id) same ∙ away in
      rw (e, f) (find_other key_id other cs away)
]

pub call-consumer_of :
    (key_id : String) (c : ApisixCall) (a : Apisix)
    → IsOther key_id c
    → consumer_of key_id (call c a) ≡ consumer_of key_id a
unfolding call
call-consumer_of key_id (put_group g) a away = refl
call-consumer_of key_id (delete_group t) a away = refl
call-consumer_of key_id (put_consumer c) a away =
    rw away (find_other key_id c.key_id a.consumers away)
call-consumer_of key_id (delete_consumer k) a away = find_other key_id k a.consumers away

pub call_all-consumer_of :
    (key_id : String) (calls : List ApisixCall) (a : Apisix)
    → All (IsOther key_id) calls
    → consumer_of key_id (call_all calls a) ≡ consumer_of key_id a
unfolding call_all
call_all-consumer_of key_id [] a all = refl
call_all-consumer_of key_id (c ∷ calls) a (away, all) =
    call_all-consumer_of key_id calls (call c a) all ∙ call-consumer_of key_id c a away

module _ (decrypt : String → String) (weights : Dict ℕ) where
  abbrev want : Bool → String → Key → Option Consumer
  want in_group tenant_id k = wanted decrypt weights in_group tenant_id k

  abbrev call_of : Bool → String → Key → ApisixCall
  call_of in_group tenant_id k = key_call decrypt weights k.id (want in_group tenant_id k)

  -- The call for a key touches the consumer of no other.
  call_of-IsOther :
      (in_group : Bool) (tenant_id key_id : String) (k : Key)
      → str_eq k.id key_id ≡ false
      → IsOther key_id (call_of in_group tenant_id k)
  call_of-IsOther in_group tenant_id key_id k away = elim (Option-cases k.key_enc) [
    | inl e ↦ rw (e, IsOther, key_call) away
    | inr (enc, e) ↦ elim (Bool-cases (str_eq k.status "active")) [
      | inl f ↦ rw (e, IsOther, key_call) (rw (f, IsOther, key_call) away)
      | inr f ↦ rw (e, IsOther, key_call) (rw (f, IsOther, key_call) away)
    ]
  ]

  call_of-consumer_of :
      (in_group : Bool) (tenant_id : String) (k : Key) (a : Apisix)
      → consumer_of k.id (call (call_of in_group tenant_id k) a) ≡ want in_group tenant_id k
  unfolding call
  call_of-consumer_of in_group tenant_id k a =
      let own : str_eq k.id k.id ≡ true = ground (arith, eq_iff k.id k.id) in
      elim (Option-cases k.key_enc) [
        | inl e ↦ rw (e, key_call) (find_deleted k.id a.consumers)
        | inr (enc, e) ↦ elim (Bool-cases (str_eq k.status "active")) [
          | inl f ↦ rw (e, key_call) (rw (f, key_call) (rw own refl))
          | inr f ↦ rw (e, key_call) (rw (f, key_call) (find_deleted k.id a.consumers))
        ]
      ]

  -- The ids of a table's rows are its primary key.
  abbrev pub IsDistinct : List Key → Type 0
  IsDistinct [] = Unit
  IsDistinct (k ∷ keys) = All (λ (l : Key). str_eq l.id k.id ≡ false) keys × IsDistinct keys

  others_away :
      (in_group : Bool) (tenant_id key_id : String) (keys : List Key)
      → All (λ (l : Key). str_eq l.id key_id ≡ false) keys
      → All (IsOther key_id) (map (call_of in_group tenant_id) keys)
  others_away in_group tenant_id key_id [] all = tt
  others_away in_group tenant_id key_id (k ∷ keys) (away, all) = (
    call_of-IsOther in_group tenant_id key_id k away,
    others_away in_group tenant_id key_id keys all,
  )

  keys_synced :
      (in_group : Bool) (tenant_id : String) (keys : List Key) (a : Apisix)
      → IsDistinct keys
      → All
          (λ (k : Key).
            consumer_of k.id (call_all (map (call_of in_group tenant_id) keys) a)
            ≡ want in_group tenant_id k)
          keys
  unfolding call_all
  keys_synced in_group tenant_id [] a distinct = tt
  keys_synced in_group tenant_id (k ∷ keys) a (away, distinct) =
      let a' = call (call_of in_group tenant_id k) a in
      (
        call_all-consumer_of k.id (map (call_of in_group tenant_id) keys) a'
              (others_away in_group tenant_id k.id keys away)
            ∙ call_of-consumer_of in_group tenant_id k a,
        keys_synced in_group tenant_id keys a' distinct,
      )

  take_all : {A : Type 0} (xs : List A) → take (length xs) xs ≡ xs
  take_all [] = refl
  take_all (x ∷ xs) = ap (λ ys. x ∷ ys) (take_all xs)

  -- After every call for an active tenant, by the function that the calls are made from.
  pub sync_tenant-wanted :
      (tenant_id : String) (db : Db) (a : Apisix) (t : TenantRow) (plan : Option Plan)
      → get_tenant tenant_id true db ≡ ok t
      → str_eq t.status "active" ≡ true
      → tenant_with_plan tenant_id db ≡ ok plan
      → IsDistinct (list_keys tenant_id db)
      → All
          (λ (k : Key).
            consumer_of k.id (
              sync_tenant decrypt weights
                (length (sync_calls decrypt weights tenant_id db))
                tenant_id
                db
                a)
            ≡ want (group_for decrypt weights tenant_id plan).0 tenant_id k)
          (list_keys tenant_id db)
  unfolding sync_tenant sync_calls call_all
  sync_tenant-wanted tenant_id db a t plan found active planned distinct =
      let group = group_for decrypt weights tenant_id plan in
      let keys = list_keys tenant_id db in
      let calls : calls_for decrypt weights tenant_id db (get_tenant tenant_id true db)
          ≡ active_calls decrypt weights tenant_id keys plan =
        rw (found, calls_for) (rw (active, calls_for) (rw (planned, calls_with) refl)) in
      rw (take_all (calls_for decrypt weights tenant_id db (get_tenant tenant_id true db)))
        (rw calls (keys_synced group.0 tenant_id keys (call group.1 a) distinct))
