-- ===== src/Admin/Tests.antt =====
-- Runs of the administration pages, and the theorems at them.
use industry_dashboard.Base.{
  ◌≤◌, ◌≡◌, refl, true, false, List, [], ◌∷◌, All, none, some, codes, trim, is_space, is_empty,
  string_eq, arith,
}
use industry_dashboard.Admin.AuditLog
use industry_dashboard.Admin.AuditLog.{
  pick_action, prev, next, offset, IsInside, run-IsInside, pick-past_end,
}
use industry_dashboard.Admin.Roles
use industry_dashboard.Admin.Roles.{
  check, create, CreateRole, Permission, members, perm_groups, members-perm_groups,
}
use industry_dashboard.Admin.ApiKeys
use industry_dashboard.Admin.ApiKeys.{
  open_create, close_create, press_create, press_enter, created, create_key, Command, IsNamed,
  run-closed, run-IsNamed, run-press_enter,
}
use industry_dashboard.Admin.Users
use industry_dashboard.Admin.Users.{or_undefined, assign_role, run-assign_role}

abbrev second : AuditLog.Page
second = record AuditLog.initial { page = 1 }

few : 3 ≤ offset second
unfolding offset
few = omega arith

abbrev role_events : List Roles.Event
role_events =
    create true ∷ Roles.type_name "Viewer" ∷ check "p1" ∷ check "p2" ∷ check "p1" ∷ create true ∷ []

role_test :
    (Roles.run role_events Roles.initial).1
    ≡ none
      ∷ none
      ∷ none
      ∷ none
      ∷ none
      ∷ some (record { name = "Viewer"; description = ""; permission_ids = "p2" ∷ [] })
      ∷ []
unfolding Roles.run
role_test = refl

abbrev permissions : List Permission
permissions =
    record { id = "1"; code = "alert.view"; group_name = "Alerts" }
    ∷ record { id = "2"; code = "site.view"; group_name = "Sites" }
    ∷ record { id = "3"; code = "alert.edit"; group_name = "Alerts" }
    ∷ []

abbrev key_events : List ApiKeys.Event
key_events =
    open_create
    ∷ ApiKeys.type_name (codes " worker ")
    ∷ press_create
    ∷ created (codes "s3cr3t")
    ∷ []

key_test :
    ((ApiKeys.run key_events ApiKeys.initial).0.created_key ≡ some (codes "s3cr3t"))
    × ((ApiKeys.run key_events ApiKeys.initial).1
        ≡ none ∷ none ∷ some (create_key (codes "worker")) ∷ none ∷ [])
unfolding ApiKeys.run
key_test = (refl, refl)

run-IsNamed_example : All IsNamed (ApiKeys.run key_events ApiKeys.initial).1
run-IsNamed_example = run-IsNamed key_events ApiKeys.initial

abbrev typed : ApiKeys.Page
typed = record ApiKeys.initial { create_open = true; key_name = codes "worker" }

worker_named : (ApiKeys.is_form typed ≡ true) × (is_empty (trim typed.key_name) ≡ false)
unfolding trim is_space
worker_named = (refl, refl)

abbrev between : List Users.Event
between = Users.pick_site (some (codes "s1")) ∷ []

run-assign_role_example :
    let q =
      (Users.run between (Users.step (Users.pick_role (some (codes "admin"))) Users.initial).0).0 in
    (Users.step Users.click_assign (Users.step (Users.open_for (codes "u2")) q).0).1
    ≡ some (assign_role (codes "u2") (codes "admin") (or_undefined q.selected_site))
run-assign_role_example =
    run-assign_role Users.initial (codes "admin") (codes "u2") between (tt, tt) refl refl
