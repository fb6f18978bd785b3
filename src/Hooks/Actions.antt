-- ===== src/Hooks/Actions.antt =====
-- Mutations of frontend/src/lib/hooks.ts about alerts, keys, roles, dashboards and the language. `rest` is
-- what the variables hold beside the ids of the path.
use industry_dashboard.Base.{[], ◌∷◌, ◌++◌, Codes, codes}
use industry_dashboard.Hooks.{
  Mutation, text, key_named, mutate_json, any_response, any_json, fixed_error, bare, with_body,
  with_typed_body,
}
use industry_dashboard.Hooks.Json
use industry_dashboard.Hooks.Json.{Elements, Fields, array, no_fields, field, body_of}

module _ {N : Type 0} (print : N → Codes) where
  unfoldable pub use_acknowledge_alert : Codes → Mutation
  use_acknowledge_alert event_id = record {
    path = codes "/alert-events/" ++ (event_id ++ codes "/acknowledge");
    options = bare "POST";
    reader = any_response;
    invalidated = (key_named "alert-events" ∷ []) ∷ [];
  }

  unfoldable pub use_create_alert : Codes → Fields N → Mutation
  unfolding body_of
  use_create_alert site_id rest = record {
    path = codes "/alerts?site_id=" ++ site_id;
    options = with_body "POST" (body_of print rest);
    reader = mutate_json;
    invalidated = (key_named "alerts" ∷ []) ∷ [];
  }

  unfoldable pub use_update_alert : Codes → Codes → Fields N → Mutation
  unfolding body_of
  use_update_alert id site_id rest = record {
    path = codes "/alerts/" ++ (id ++ (codes "?site_id=" ++ site_id));
    options = with_body "PUT" (body_of print rest);
    reader = mutate_json;
    invalidated = (key_named "alerts" ∷ []) ∷ [];
  }

  unfoldable pub use_delete_alert : Codes → Codes → Mutation
  use_delete_alert id site_id = record {
    path = codes "/alerts/" ++ (id ++ (codes "?site_id=" ++ site_id));
    options = bare "DELETE";
    reader = mutate_json;
    invalidated = (key_named "alerts" ∷ []) ∷ [];
  }

  unfoldable pub use_bulk_alert_action : Codes → Fields N → Mutation
  unfolding body_of
  use_bulk_alert_action site_id rest = record {
    path = codes "/alerts/bulk-action?site_id=" ++ site_id;
    options = with_body "POST" (body_of print rest);
    reader = mutate_json;
    invalidated = (key_named "alerts" ∷ []) ∷ [];
  }

  unfoldable pub use_acknowledge_all_info : Codes → Mutation
  use_acknowledge_all_info site_id = record {
    path = codes "/alert-events/acknowledge-info?site_id=" ++ site_id;
    options = bare "POST";
    reader = mutate_json;
    invalidated = (key_named "alert-events" ∷ []) ∷ [];
  }

  unfoldable pub use_create_api_key : Fields N → Mutation
  unfolding body_of
  use_create_api_key rest = record {
    path = codes "/llm/keys";
    options = with_body "POST" (body_of print rest);
    reader = mutate_json;
    invalidated = (key_named "api-keys" ∷ []) ∷ [];
  }

  unfoldable pub use_revoke_api_key : Codes → Mutation
  use_revoke_api_key id = record {
    path = codes "/llm/keys/" ++ id;
    options = bare "DELETE";
    reader = mutate_json;
    invalidated = (key_named "api-keys" ∷ []) ∷ [];
  }

  unfoldable pub use_create_role : Fields N → Mutation
  unfolding body_of
  use_create_role rest = record {
    path = codes "/rbac/roles";
    options = with_typed_body "POST" "application/json" (body_of print rest);
    reader = any_response;
    invalidated = (key_named "roles" ∷ []) ∷ [];
  }

  unfoldable pub use_assign_role : Fields N → Mutation
  unfolding body_of
  use_assign_role rest = record {
    path = codes "/rbac/assignments";
    options = with_typed_body "POST" "application/json" (body_of print rest);
    reader = any_response;
    invalidated = (key_named "users" ∷ []) ∷ [];
  }

  unfoldable pub use_remove_role_assignment : Codes → Mutation
  use_remove_role_assignment id = record {
    path = codes "/rbac/assignments/" ++ id;
    options = bare "DELETE";
    reader = any_response;
    invalidated = (key_named "users" ∷ []) ∷ [];
  }

  unfoldable pub use_create_dashboard : Fields N → Mutation
  unfolding body_of
  use_create_dashboard rest = record {
    path = codes "/dashboards";
    options = with_typed_body "POST" "application/json" (body_of print rest);
    reader = any_json;
    invalidated = (key_named "dashboards" ∷ []) ∷ [];
  }

  unfoldable pub use_update_dashboard : Codes → Codes → Mutation
  unfolding body_of
  use_update_dashboard id title = record {
    path = codes "/dashboards/" ++ id;
    options =
        with_typed_body "PUT" "application/json"
          (body_of print (field "title" (Json.text title) no_fields));
    reader = any_response;
    invalidated = (key_named "dashboards" ∷ []) ∷ [];
  }

  unfoldable pub use_delete_dashboard : Codes → Mutation
  use_delete_dashboard id = record {
    path = codes "/dashboards/" ++ id;
    options = bare "DELETE";
    reader = any_response;
    invalidated = (key_named "dashboards" ∷ []) ∷ [];
  }

  unfoldable pub use_save_widgets : Codes → Elements N → Mutation
  unfolding body_of
  use_save_widgets dashboard_id widgets = record {
    path = codes "/dashboards/" ++ (dashboard_id ++ codes "/widgets");
    options =
        with_typed_body "PUT" "application/json"
          (body_of print (field "widgets" (array widgets) no_fields));
    reader = any_response;
    invalidated = (key_named "dashboard" ∷ text dashboard_id ∷ []) ∷ [];
  }

  unfoldable pub use_set_dashboard_access : Codes → Elements N → Mutation
  unfolding body_of
  use_set_dashboard_access dashboard_id access = record {
    path = codes "/dashboards/" ++ (dashboard_id ++ codes "/access");
    options =
        with_typed_body "PUT" "application/json"
          (body_of print (field "access" (array access) no_fields));
    reader = any_response;
    invalidated = (key_named "dashboard-access" ∷ text dashboard_id ∷ []) ∷ [];
  }

  unfoldable pub use_update_locale : Codes → Mutation
  unfolding body_of
  use_update_locale locale = record {
    path = codes "/me/preferences";
    options =
        with_typed_body "PATCH" "application/json"
          (body_of print (field "locale" (Json.text locale) no_fields));
    reader = fixed_error "Failed to update locale";
    invalidated = [];
  }
