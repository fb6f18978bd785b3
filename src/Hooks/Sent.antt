-- ===== src/Hooks/Sent.antt =====
-- Mutations of frontend/src/lib/hooks.ts about sites, lines, machines, workers and their configurations.
-- `rest` is what the variables hold beside the ids of the path.
use industry_dashboard.Base.{[], ◌∷◌, ◌++◌, Codes, codes}
use industry_dashboard.Hooks.{
  Mutation, text, key_named, mutate_json, text_error, bare, with_body, with_typed_body,
}
use industry_dashboard.Hooks.Json
use industry_dashboard.Hooks.Json.{Elements, Fields, array, no_fields, field, body_of}

module _ {N : Type 0} (print : N → Codes) where
  unfoldable pub use_create_site : Fields N → Mutation
  unfolding body_of
  use_create_site rest = record {
    path = codes "/sites";
    options = with_body "POST" (body_of print rest);
    reader = mutate_json;
    invalidated = (key_named "admin-sites" ∷ []) ∷ [];
  }

  unfoldable pub use_update_site : Codes → Fields N → Mutation
  unfolding body_of
  use_update_site id rest = record {
    path = codes "/sites/" ++ id;
    options = with_body "PUT" (body_of print rest);
    reader = mutate_json;
    invalidated = (key_named "admin-sites" ∷ []) ∷ (key_named "site-detail" ∷ []) ∷ [];
  }

  unfoldable pub use_delete_site : Codes → Mutation
  use_delete_site id = record {
    path = codes "/sites/" ++ id;
    options = bare "DELETE";
    reader = mutate_json;
    invalidated = (key_named "admin-sites" ∷ []) ∷ [];
  }

  unfoldable pub use_create_line : Codes → Fields N → Mutation
  unfolding body_of
  use_create_line site_id rest = record {
    path = codes "/sites/" ++ (site_id ++ codes "/lines");
    options = with_body "POST" (body_of print rest);
    reader = mutate_json;
    invalidated = (key_named "site-detail" ∷ []) ∷ [];
  }

  unfoldable pub use_update_line : Codes → Fields N → Mutation
  unfolding body_of
  use_update_line id rest = record {
    path = codes "/lines/" ++ id;
    options = with_body "PUT" (body_of print rest);
    reader = mutate_json;
    invalidated = (key_named "site-detail" ∷ []) ∷ [];
  }

  unfoldable pub use_delete_line : Codes → Mutation
  use_delete_line id = record {
    path = codes "/lines/" ++ id;
    options = bare "DELETE";
    reader = mutate_json;
    invalidated = (key_named "site-detail" ∷ []) ∷ (key_named "admin-sites" ∷ []) ∷ [];
  }

  unfoldable pub use_create_machine : Codes → Fields N → Mutation
  unfolding body_of
  use_create_machine line_id rest = record {
    path = codes "/lines/" ++ (line_id ++ codes "/machines");
    options = with_body "POST" (body_of print rest);
    reader = mutate_json;
    invalidated = (key_named "site-detail" ∷ []) ∷ [];
  }

  unfoldable pub use_update_machine : Codes → Fields N → Mutation
  unfolding body_of
  use_update_machine id rest = record {
    path = codes "/machines/" ++ id;
    options = with_body "PUT" (body_of print rest);
    reader = mutate_json;
    invalidated = (key_named "site-detail" ∷ []) ∷ [];
  }

  unfoldable pub use_delete_machine : Codes → Mutation
  use_delete_machine id = record {
    path = codes "/machines/" ++ id;
    options = bare "DELETE";
    reader = mutate_json;
    invalidated = (key_named "site-detail" ∷ []) ∷ (key_named "admin-sites" ∷ []) ∷ [];
  }

  unfoldable pub use_send_worker_command : Codes → Codes → Mutation
  unfolding body_of
  use_send_worker_command worker_id command = record {
    path = codes "/workers/" ++ (worker_id ++ codes "/commands");
    options = with_body "POST" (body_of print (field "command" (Json.text command) no_fields));
    reader = mutate_json;
    invalidated = (key_named "workers" ∷ []) ∷ (key_named "worker-detail" ∷ []) ∷ [];
  }

  unfoldable pub use_create_worker_config : Fields N → Mutation
  unfolding body_of
  use_create_worker_config rest = record {
    path = codes "/worker-configs";
    options = with_body "POST" (body_of print rest);
    reader = mutate_json;
    invalidated = (key_named "worker-configs" ∷ []) ∷ [];
  }

  unfoldable pub use_update_worker_config : Codes → Fields N → Mutation
  unfolding body_of
  use_update_worker_config id rest = record {
    path = codes "/worker-configs/" ++ id;
    options = with_body "PUT" (body_of print rest);
    reader = mutate_json;
    invalidated = (key_named "worker-configs" ∷ []) ∷ (key_named "worker-config" ∷ []) ∷ [];
  }

  unfoldable pub use_delete_worker_config : Codes → Mutation
  use_delete_worker_config id = record {
    path = codes "/worker-configs/" ++ id;
    options = bare "DELETE";
    reader = mutate_json;
    invalidated = (key_named "worker-configs" ∷ []) ∷ [];
  }

  unfoldable pub use_set_config_machines : Codes → Elements N → Mutation
  unfolding body_of
  use_set_config_machines config_id machines = record {
    path = codes "/worker-configs/" ++ (config_id ++ codes "/machines");
    options = with_body "PUT" (body_of print (field "machines" (array machines) no_fields));
    reader = mutate_json;
    invalidated = (key_named "worker-config" ∷ []) ∷ [];
  }

  unfoldable pub use_set_machine_registers : Codes → Elements N → Mutation
  unfolding body_of
  use_set_machine_registers machine_id registers = record {
    path = codes "/machines/" ++ (machine_id ++ codes "/registers");
    options = with_body "PUT" (body_of print (field "registers" (array registers) no_fields));
    reader = mutate_json;
    invalidated = (key_named "machine-registers" ∷ text machine_id ∷ []) ∷ [];
  }

  unfoldable pub use_import_registers_csv : Codes → Codes → Mutation
  use_import_registers_csv machine_id csv = record {
    path = codes "/machines/" ++ (machine_id ++ codes "/registers/import");
    options = with_typed_body "POST" "text/csv" csv;
    reader = text_error;
    invalidated = [];
  }
