-- ===== src/Dashboards/Listing.antt =====
-- The list of dashboards, frontend/src/pages/dashboards/DashboardListPage.tsx: its handlers, its three dialogs and
-- what a card offers. `navigate` is the path that it was called with last.
pub mod Asked
use industry_dashboard.Base.{
  ℕ, Bool, true, false, not, ◌&&◌, ◌||◌, List, [], ◌∷◌, ◌++◌, map, String, Option, none, some,
  Codes, codes, is_empty, trim, ◌==◌, codes_eq, if◌then◌else◌, ℤ,
}
use industry_dashboard.Times.{relative_time}

pub record Dashboard : Type 0 where
  pub id : Codes
  pub title : Codes
  pub owner_id : Codes
  pub is_shared : Bool
  pub access_level : Codes
  -- `Date.now() - updated_at` in seconds, rounded down
  pub age : ℤ

pub record Target : Type 0 where
  pub id : Codes
  pub title : Codes

pub record Page : Type 0 where
  pub new_title : Codes
  pub delete_target : Option Target
  pub share_target_id : Option Codes
  pub rename_target : Option Target
  pub rename_value : Codes
  -- `createDashboard.isPending`
  pub pending : Bool
  pub path : Option Codes

abbrev pub initial : Page
initial = record {
  new_title = [];
  delete_target = none;
  share_target_id = none;
  rename_target = none;
  rename_value = [];
  pending = false;
  path = none;
}

pub data Sent : Type 0 where
  create : Codes → Codes → Sent
  delete : Codes → Sent
  rename : Codes → Codes → Sent

-- `handleCreate` up to the `await`; the site is the id of the current one
pub handle_create : Option Codes → Page → Page × Option Sent
handle_create none p = (p, none)
handle_create (some site_id) p =
    if is_empty p.new_title
    then (p, none)
    else (record p { pending = true }, some (create p.new_title site_id))

pub handle_delete : Option Target → Page → Page × Option Sent
handle_delete none p = (p, none)
handle_delete (some t) p = (record p { delete_target = none }, some (delete t.id))

pub handle_rename : Option Target → Page → Page × Option Sent
unfolding trim
handle_rename none p = (p, none)
handle_rename (some t) p = if is_empty (trim p.rename_value) then (p, none) else (
  record p { rename_target = none; rename_value = [] },
  some (rename t.id (trim p.rename_value)),
)

-- `d.access_level === 'edit'`
unfoldable pub can_edit : Dashboard → Bool
can_edit d = d.access_level == codes "edit"

-- `d.owner_id === user?.id`
unfoldable pub is_owner : Option Codes → Dashboard → Bool
is_owner none d = false
is_owner (some id) d = d.owner_id == id

abbrev pub target_of : Dashboard → Target
target_of d = record { id = d.id; title = d.title }

pub data Event : Type 0 where
  type_title type_rename : Codes → Event
  press_create click_create create_failed : Event
  created : Codes → Event
  click_rename click_share click_delete : Dashboard → Event
  submit_rename close_rename close_share confirm_delete close_delete : Event

-- one event, for a user and a current site
unfoldable pub step : Option Codes → Option Codes → Event → Page → Page × Option Sent
unfolding handle_create handle_delete handle_rename can_edit is_owner
step user site (type_title v) p = (record p { new_title = v }, none)
step user site press_create p = handle_create site p
step user site click_create p =
    if is_empty p.new_title || p.pending then (p, none) else handle_create site p
step user site (created id) p = (
  record p {
    new_title = [];
    pending = false;
    path = some (codes "/dashboards/" ++ (id ++ codes "/edit"));
  },
  none,
)
step user site create_failed p = (record p { pending = false }, none)
step user site (click_rename d) p = (
  if can_edit d then record p { rename_target = some (target_of d); rename_value = d.title } else p,
  none,
)
step user site (type_rename v) p = (record p { rename_value = v }, none)
step user site submit_rename p = handle_rename p.rename_target p
step user site close_rename p = (record p { rename_target = none; rename_value = [] }, none)
step user site (click_share d) p =
    (if can_edit d && is_owner user d then record p { share_target_id = some d.id } else p, none)
step user site close_share p = (record p { share_target_id = none }, none)
step user site (click_delete d) p =
    (if can_edit d then record p { delete_target = some (target_of d) } else p, none)
step user site confirm_delete p = handle_delete p.delete_target p
step user site close_delete p = (record p { delete_target = none }, none)

-- the page after a run of events, and what was sent
unfoldable pub run : Option Codes → Option Codes → List Event → Page → Page × List (Option Sent)
unfolding step
run user site [] p = (p, [])
run user site (e ∷ es) p =
    let (p', sent) = step user site e p in
    let (p'', more) = run user site es p' in (p'', sent ∷ more)

-- a card: its badges, its age and its links and buttons in their order
pub record Card : Type 0 where
  pub title : Codes
  pub owner_badge : String
  pub shared_badge : String
  pub updated : Codes
  pub actions : List String

edit_actions : Bool → Bool → List String
edit_actions false owner = []
edit_actions true owner =
    "dashboardList.edit"
      ∷ "dashboardList.rename"
      ∷ (if owner then "dashboardList.share" ∷ [] else [])
    ++ "dashboardList.delete" ∷ []

unfoldable pub card : Option Codes → Dashboard → Card
unfolding can_edit is_owner edit_actions relative_time
card user d = record {
  title = d.title;
  owner_badge = if is_owner user d then "dashboardList.owner" else "dashboardList.shared";
  shared_badge = if d.is_shared then "dashboardList.shared" else "dashboardList.private";
  updated = relative_time d.age;
  actions = "dashboardList.view" ∷ edit_actions (can_edit d) (is_owner user d);
}
