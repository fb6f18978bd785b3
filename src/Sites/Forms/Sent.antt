-- ===== src/Sites/Forms/Sent.antt =====
-- What the forms of the dialogs send: SiteDialog.tsx, LineDialog.tsx and MachineDialog.tsx of frontend/src/components/admin.
use industry_dashboard.Base.{
  ◌≡◌, refl, inl, inr, true, false, [], Option, none, some, Codes, codes, is_empty, ℤ, Bool-cases,
}
use industry_dashboard.Settings.Decimal.{parse_int, parse_int-print_int}
use industry_dashboard.Hooks.Mutations
use industry_dashboard.Hooks.Mutations.{Action}
use industry_dashboard.Sites.{Answer, done, refused, Detail}
use industry_dashboard.Sites.Forms.{
  SiteForm, EditLine, LineForm, EditMachine, MachineForm, nothing, submit_site, send_line,
  line_action, submit_line, fill_line, settle_machine, machine_action, submit_machine, line_fields,
  is_done,
}

-- an action is no update of a site, and deletes a site only by the id `undefined`
abbrev pub IsLost : Option (Action ℤ) → Type 0
IsLost none = Unit
IsLost (some (Mutations.update_site id rest)) = ⊥
IsLost (some (Mutations.delete_site id)) = id ≡ codes "undefined"
IsLost (some _) = Unit

-- A form without a code sends nothing.
pub submit_site-blank :
    (d : Option Detail) (answer : Answer) (f : SiteForm)
    → f.code ≡ []
    → submit_site d answer f ≡ nothing f
unfolding submit_site
submit_site-blank d answer f h = elim (Bool-cases (is_empty f.name)) [
  | inl blank ↦ rw blank refl
  | inr named ↦ rw (named, h) refl
]

send_line-IsLost :
    (site_id : Codes) (l : Option EditLine) (answer : Answer) (f : LineForm) (o : Option ℤ)
    → IsLost (send_line site_id l answer f o).sent
unfolding send_line line_action
send_line-IsLost site_id l answer f none = tt
send_line-IsLost site_id none answer f (some z) = tt
send_line-IsLost site_id (some l) answer f (some z) = tt

pub submit_line-IsLost :
    (site_id : Codes) (l : Option EditLine) (answer : Answer) (f : LineForm)
    → IsLost (submit_line site_id l answer f).sent
unfolding submit_line
submit_line-IsLost site_id l answer f = elim (Bool-cases (is_empty f.name)) [
  | inl blank ↦ rw blank tt
  | inr named ↦ rw named (send_line-IsLost site_id l answer f (parse_int f.display_order))
]

settle_machine-IsLost :
    (line_id : Codes) (m : Option EditMachine) (answer : Answer) (f : MachineForm)
    → IsLost
        (settle_machine answer f
          (record (nothing f) { sent = some (machine_action line_id m f) })).sent
unfolding settle_machine machine_action
settle_machine-IsLost line_id none done f = tt
settle_machine-IsLost line_id none (refused t) f = tt
settle_machine-IsLost line_id (some m) done f = tt
settle_machine-IsLost line_id (some m) (refused t) f = tt

pub submit_machine-IsLost :
    (line_id : Codes) (m : Option EditMachine) (answer : Answer) (f : MachineForm)
    → IsLost (submit_machine line_id m answer f).sent
unfolding submit_machine
submit_machine-IsLost line_id m answer f = elim (Bool-cases (is_empty f.name)) [
  | inl blank ↦ rw blank tt
  | inr named ↦ rw named (settle_machine-IsLost line_id m answer f)
]

-- Editing a line and saving it at once sends the line with the name and the place that it has, if it has a
-- name, and closes the dialog unless the server refuses.
pub submit_line-fill_line :
    (site_id : Codes) (l : EditLine) (answer : Answer) (f : LineForm)
    → is_empty l.name ≡ false
    → submit_line site_id (some l) answer (fill_line true (some l) f) ≡ record {
      sent = some (Mutations.update_line l.id (line_fields l.name l.display_order));
      form = fill_line true (some l) f;
      closed = is_done answer;
    }
unfolding submit_line fill_line send_line line_action
submit_line-fill_line site_id l answer f h = rw (h, parse_int-print_int l.display_order) refl
