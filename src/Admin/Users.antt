-- ===== src/Admin/Users.antt =====
-- The users and their roles, frontend/src/pages/admin/UsersPage.tsx. The three selections are those of the page: the
-- dialogs of all users share them.
use industry_dashboard.Base.{
  ◌≡◌, refl, Bool, true, false, ◌||◌, List, [], ◌∷◌, map, All, String, Option, none, some, Codes,
  is_empty, if◌then◌else◌,
}

pub record Assignment : Type 0 where
  pub id : Codes
  pub role_name : Codes
  pub site_name : Option Codes

pub record User : Type 0 where
  pub id : Codes
  pub name : Codes
  pub email : Codes
  pub is_active : Bool
  pub roles : Option (List Assignment)

pub record Page : Type 0 where
  pub selected_user : Codes
  pub selected_role : Codes
  pub selected_site : Codes

abbrev pub initial : Page
initial = record { selected_user = []; selected_role = []; selected_site = [] }

pub data Sent : Type 0 where
  assign_role : Codes → Codes → Option Codes → Sent
  remove_role : Codes → Sent

-- `v ?? ''`, and `selectedSite || undefined`
abbrev or_blank : Option Codes → Codes
or_blank none = []
or_blank (some v) = v

abbrev pub or_undefined : Codes → Option Codes
or_undefined [] = none
or_undefined (c ∷ s) = some (c ∷ s)

handle_assign : Page → Page × Option Sent
handle_assign p = if is_empty p.selected_user || is_empty p.selected_role then (p, none) else (
  record p { selected_role = []; selected_site = [] },
  some (assign_role p.selected_user p.selected_role (or_undefined p.selected_site)),
)

-- the button of a user, the two selections, Assign, and the cross at a role
pub data Event : Type 0 where
  open_for : Codes → Event
  pick_role pick_site : Option Codes → Event
  click_assign : Event
  click_remove : Codes → Event

unfoldable pub step : Event → Page → Page × Option Sent
unfolding handle_assign
step (open_for id) p = (record p { selected_user = id }, none)
step (pick_role v) p = (record p { selected_role = or_blank v }, none)
step (pick_site v) p = (record p { selected_site = or_blank v }, none)
step click_assign p = if is_empty p.selected_role then (p, none) else handle_assign p
step (click_remove id) p = (p, some (remove_role id))

unfoldable pub run : List Event → Page → Page × List (Option Sent)
unfolding step
run [] p = (p, [])
run (e ∷ es) p = let (p', sent) = step e p in let (p'', more) = run es p' in (p'', sent ∷ more)

-- a row: the badge of the status, and a badge for each role or a text that there is none
pub record Row : Type 0 where
  pub name : Codes
  pub email : Codes
  pub status : String
  pub roles : List (Codes × Option Codes)
  pub no_roles : Bool

abbrev or_none : Option (List Assignment) → List Assignment
or_none none = []
or_none (some rs) = rs

-- a missing name of a site, and an empty one, is the role for all sites
abbrev place : Option Codes → Option Codes
place none = none
place (some s) = or_undefined s

-- `u.roles.length === 0`
abbrev is_none_left : List Assignment → Bool
is_none_left [] = true
is_none_left (r ∷ rs) = false

unfoldable pub row : User → Row
row u = record {
  name = u.name;
  email = u.email;
  status = if u.is_active then "admin.active" else "admin.inactive";
  roles = map (λ r. (r.role_name, place r.site_name)) (or_none u.roles);
  no_roles = is_none_left (or_none u.roles);
}

-- an event between two dialogs: no role is picked and nothing is assigned
abbrev pub IsBetween : Event → Type 0
IsBetween (pick_role v) = ⊥
IsBetween click_assign = ⊥
IsBetween _ = Unit

run-selected_role :
    (es : List Event) (p : Page) → All IsBetween es → (run es p).0.selected_role ≡ p.selected_role
unfolding run
run-selected_role [] p h = refl
run-selected_role (open_for id ∷ es) p h = run-selected_role es (step (open_for id) p).0 h.1
run-selected_role (pick_role v ∷ es) p h = absurd h.0
run-selected_role (pick_site v ∷ es) p h = run-selected_role es (step (pick_site v) p).0 h.1
run-selected_role (click_assign ∷ es) p h = absurd h.0
run-selected_role (click_remove id ∷ es) p h = run-selected_role es p h.1

-- A role that was picked in the dialog of one user and not assigned is still picked in the dialog of the next user,
-- whatever happens between, as long as no role is picked and nothing is assigned: Assign gives it to that user.
pub run-assign_role :
    (p : Page) (role user : Codes) (es : List Event)
    → All IsBetween es
    → is_empty role ≡ false
    → is_empty user ≡ false
    → let q = (run es (step (pick_role (some role)) p).0).0 in
      (step click_assign (step (open_for user) q).0).1
      ≡ some (assign_role user role (or_undefined q.selected_site))
unfolding step handle_assign
run-assign_role p role user es h r u =
    let q = (run es (step (pick_role (some role)) p).0).0 in
    let same : q.selected_role ≡ role = run-selected_role es (step (pick_role (some role)) p).0 h in
    rw (same, r, u) refl
