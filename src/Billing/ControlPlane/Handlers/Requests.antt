-- ===== src/Billing/ControlPlane/Handlers/Requests.antt =====
-- billing/control_plane.py, `build_app`: the requests that write, by method and route.
use geocoder_fwd.Prelude.{ℕ, Option, List, String}
use geocoder_fwd.Billing.Accounts.{Plan}
use geocoder_fwd.Billing.Accounts.Tenants.{TenantFields}
use geocoder_fwd.Billing.Accounts.Plans.{PlanFields}
use geocoder_fwd.Billing.Accounts.Keys.{NewKey, KeyFields}
use geocoder_fwd.Billing.ControlPlane.Handlers.{
  Services, World, add_admin, modify_admin, remove_admin, reset_admin_password, reset_admin_mfa,
  post_tenant, patch_tenant, remove_tenant, add_tenant_user, modify_tenant_user, remove_tenant_user,
  reset_password, reset_tenant_user_mfa, post_plan, patch_plan, remove_plan,
}
use geocoder_fwd.Billing.ControlPlane.Handlers.Keys.{post_key, patch_key, remove_key}

pub data Request : Type 0 where
  admin_added : String → String → Request
  admin_modified : String → String → Request
  admin_removed : String → Request
  admin_password_reset : String → String → Request
  admin_mfa_reset : String → Request
  tenant_created : String → String → Option String → String → String → String → Request
  tenant_updated : String → TenantFields → Request
  tenant_deleted : String → Request
  user_added : String → String → String → Request
  user_modified : String → String → String → Request
  user_removed : String → String → Request
  user_password_reset : String → String → String → Request
  user_mfa_reset : String → String → Request
  plan_created : Plan → Request
  plan_updated : String → PlanFields → Request
  plan_deleted : String → Request
  key_created : NewKey → String → String → List String → Request
  key_updated : String → String → KeyFields → Request
  key_deleted : String → String → Request

unfoldable pub handle : {S : Type 0} → Services S → Request → World S → ℕ × World S
handle env (admin_added email password) w = add_admin env email password w
handle env (admin_modified email status) w = modify_admin env email status w
handle env (admin_removed email) w = remove_admin env email w
handle env (admin_password_reset email new) w = reset_admin_password env email new w
handle env (admin_mfa_reset email) w = reset_admin_mfa env email w
handle env (tenant_created new_id name contact plan_id email password) w =
    post_tenant env new_id name contact plan_id email password w
handle env (tenant_updated tenant_id fields) w = patch_tenant env tenant_id fields w
handle env (tenant_deleted tenant_id) w = remove_tenant env tenant_id w
handle env (user_added tenant_id email password) w = add_tenant_user env tenant_id email password w
handle env (user_modified tenant_id email status) w =
    modify_tenant_user env tenant_id email status w
handle env (user_removed tenant_id email) w = remove_tenant_user env tenant_id email w
handle env (user_password_reset tenant_id email new) w = reset_password env tenant_id email new w
handle env (user_mfa_reset tenant_id email) w = reset_tenant_user_mfa env tenant_id email w
handle env (plan_created plan) w = post_plan env plan w
handle env (plan_updated plan_id fields) w = patch_plan env plan_id fields w
handle env (plan_deleted plan_id) w = remove_plan env plan_id w
handle env (key_created new tenant_id name scopes) w = post_key env new tenant_id name scopes w
handle env (key_updated key_id tenant_id fields) w = patch_key env key_id tenant_id fields w
handle env (key_deleted key_id tenant_id) w = remove_key env key_id tenant_id w
