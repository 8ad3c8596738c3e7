-- ===== src/Instances/Instance.antt =====
-- CustomerApp and the statements of internal/database/instances.go that the callbacks use: each updates
-- the row with the given ID, and changes nothing where there is none.
use admirald.Shared.{
  Bool, true, false, Option, String, List, find, if◌then◌else◌, ◌==◌, update_where,
}

-- The columns of `customer_apps` that the model reads or writes; `node_id` may be NULL.
pub record CustomerApp : Type 0 where
  pub id : String
  pub customer_id : String
  pub app_definition_name : String
  pub tier_name : String
  pub node_id : Option String
  pub commercial_status : String
  pub technical_status : String
  pub tier_snapshot_json : String
  pub logical_instance_id : String
  pub inspect_data : String
  pub setup_completed : Bool
  pub need_restarting : Bool

abbrev pub is_app : String → CustomerApp → Bool
is_app id a = a.id == id

abbrev pub get_customer_app : String → List CustomerApp → Option CustomerApp
get_customer_app id apps = find (is_app id) apps

-- `COALESCE(NULLIF(new, ''), old)`
abbrev pub coalesce : String → String → String
coalesce new old = if new == "" then old else new

unfoldable pub update_customer_app_status :
    String → String → String → List CustomerApp → List CustomerApp
update_customer_app_status id commercial technical = update_where (is_app id) (λ a. record a {
  commercial_status = coalesce commercial a.commercial_status;
  technical_status = coalesce technical a.technical_status;
})

unfoldable pub set_setup_completed : String → List CustomerApp → List CustomerApp
set_setup_completed id = update_where (is_app id) (λ a. record a { setup_completed = true })

-- The columns `update_type` and `update_started_at` are not modelled.
unfoldable pub clear_customer_app_restart_required : String → List CustomerApp → List CustomerApp
clear_customer_app_restart_required id =
    update_where (is_app id) (λ a. record a { need_restarting = false })

unfoldable pub update_customer_app_inspect_data :
    String → String → List CustomerApp → List CustomerApp
update_customer_app_inspect_data id inspect_data =
    update_where (is_app id) (λ a. record a { inspect_data = inspect_data })

unfoldable pub update_customer_app_tier :
    String → String → String → List CustomerApp → List CustomerApp
update_customer_app_tier id tier_name json =
    update_where (is_app id) (λ a. record a { tier_name = tier_name; tier_snapshot_json = json })
