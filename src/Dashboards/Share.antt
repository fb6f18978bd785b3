-- ===== src/Dashboards/Share.antt =====
-- Who may see a dashboard, frontend/src/pages/dashboards/ShareDialog.tsx. `accessMap` is a list in the order in
-- which its keys were made, as `Object.entries` gives it; a role's id is no array index.
pub mod Saved
use industry_dashboard.Base.{
  Bool, true, false, not, List, [], ◌∷◌, map, filter, Option, none, some, Codes, ◌==◌, codes_eq,
  if◌then◌else◌,
}

pub data AccessLevel : Type 0 where
  no_access view edit : AccessLevel

pub record Access : Type 0 where
  pub role_id : Codes
  pub access_level : AccessLevel

-- `{ ...map, [role]: level }`, and `map[role] = level`
pub set : Codes → AccessLevel → List Access → List Access
set role level [] = record { role_id = role; access_level = level } ∷ []
set role level (a ∷ more) =
    let rest = set role level more in
    if a.role_id == role then record a { access_level = level } ∷ more else a ∷ rest

-- `map[role]`
pub get : Codes → List Access → Option AccessLevel
get role [] = none
get role (a ∷ more) =
    let rest = get role more in if a.role_id == role then some a.access_level else rest

abbrev pub or_no_access : Option AccessLevel → AccessLevel
or_no_access none = no_access
or_no_access (some level) = level

-- `accessMap[role.id] || 'none'`
unfoldable pub shown_level : Codes → List Access → AccessLevel
unfolding get
shown_level role m = or_no_access (get role m)

pub set_all : List Access → List Access → List Access
unfolding set
set_all m [] = m
set_all m (a ∷ more) = set_all (set a.role_id a.access_level m) more

-- the effect, which makes the map from the answer
unfoldable pub loaded_map : List Access → List Access
unfolding set_all
loaded_map current = set_all [] current

-- `level !== 'none'`
abbrev pub is_access : AccessLevel → Bool
is_access no_access = false
is_access view = true
is_access edit = true

-- what `handleSave` sends
unfoldable pub sent_access : List Access → List Access
sent_access m = filter (λ a. is_access a.access_level) m

pub record Dialog : Type 0 where
  pub access_map : List Access
  pub pending : Bool
  pub closed : Bool

abbrev pub initial : Dialog
initial = record { access_map = []; pending = false; closed = false }

-- the answer of the query, a pick for a role, the button, the two ends of the mutation, and Escape
pub data Event : Type 0 where
  load : List Access → Event
  pick : Codes → Option AccessLevel → Event
  save resolved rejected close : Event

unfoldable pub step : Event → Dialog → Dialog × Option (List Access)
unfolding set loaded_map sent_access
step (load current) d = (record d { access_map = loaded_map current }, none)
step (pick role level) d =
    (record d { access_map = set role (or_no_access level) d.access_map }, none)
step save d =
    if d.pending then (d, none) else (record d { pending = true }, some (sent_access d.access_map))
step resolved d = (record d { pending = false; closed = true }, none)
step rejected d = (record d { pending = false }, none)
step close d = (record d { closed = true }, none)

-- the dialog after a run of events
unfoldable pub run : List Event → Dialog → Dialog
unfolding step
run [] d = d
run (e ∷ es) d = run es (step e d).0
