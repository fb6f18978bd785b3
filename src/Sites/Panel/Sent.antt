-- ===== src/Sites/Panel/Sent.antt =====
-- What the panel of a site sends.
use industry_dashboard.Base.{
  ◌≡◌, inl, inr, refl, ap, Bool, true, false, List, [], ◌∷◌, Option, none, some, Codes, All,
  Bool-cases,
}
use industry_dashboard.Hooks.{shown}
use industry_dashboard.Sites.{Answer, done, refused, Line, Site, Detail, read_answer}
use industry_dashboard.Sites.Forms
use industry_dashboard.Sites.Forms.{
  SiteForm, SiteInput, EditLine, LineForm, EditMachine, MachineForm, nothing, fill_site, type_site,
  submit_site, send_line, line_action, submit_line, fill_line, settle_machine, machine_action,
  submit_machine, fill_machine,
}
use industry_dashboard.Sites.Forms.Sent.{
  IsLost, submit_site-blank, submit_line-IsLost, submit_machine-IsLost,
}
use industry_dashboard.Sites.Panel
use industry_dashboard.Sites.Panel.{
  Kind, State, Event, Step, DeleteTarget, step, run, initial, shut_site, shut_line, shut_machine,
  confirm, delete_action, settle_delete, after_site, after_line, after_machine,
}

-- a target that is a site has no id
abbrev IsUnnamed : Option DeleteTarget → Type 0
IsUnnamed none = Unit
IsUnnamed (some t) = (t.kind ≡ Panel.site) → t.id ≡ none

abbrev IsBlank : State → Type 0
IsBlank s = (s.site_form.code ≡ []) × IsUnnamed s.delete_target

-- Closing a dialog keeps the form of the site and the target.
shut-IsBlank :
    (b : Bool) (s : State)
    → IsBlank s
    → IsBlank (shut_site b s) × IsBlank (shut_line b s) × IsBlank (shut_machine b s)
shut-IsBlank true s h = (h, h, h)
shut-IsBlank false s h = (h, h, h)

deletion-IsLost :
    (k : Kind) (id name : Option Codes)
    → (k ≡ Panel.site → id ≡ none)
    → IsLost (some (delete_action (record { kind = k; id = id; name = name })))
unfolding delete_action
deletion-IsLost Panel.site id name u = ap shown (u refl)
deletion-IsLost Panel.line id name u = tt
deletion-IsLost Panel.machine id name u = tt

confirm-IsBlank :
    (answer : Answer) (t : Option DeleteTarget) (s : State)
    → IsUnnamed t
    → IsBlank s
    → IsBlank (confirm answer t s).state × IsLost (confirm answer t s).sent
unfolding confirm settle_delete
confirm-IsBlank answer none s u h = (h, tt)
confirm-IsBlank done (some t) s u h = ((h.0, tt), deletion-IsLost t.kind t.id t.name u)
confirm-IsBlank (refused m) (some t) s u h = (h, deletion-IsLost t.kind t.id t.name u)

module _ (upper : Codes → Codes) (site_id : Codes) (site : Site) (lines : List Line) where
  type_site-blank :
      (d : Detail) (v : SiteInput) (f : SiteForm)
      → f.code ≡ []
      → (type_site upper (some d) v f).code ≡ []
  unfolding type_site
  type_site-blank d (Forms.type_name v) f h = h
  type_site-blank d (Forms.type_code v) f h = h
  type_site-blank d (Forms.type_address v) f h = h
  type_site-blank d (Forms.pick_timezone v) f h = h

  step-IsBlank :
      (e : Event) (s : State)
      → IsBlank s
      → let r = step upper site_id (read_answer site lines) e s in IsBlank r.state × IsLost r.sent
  unfolding step read_answer after_site after_line after_machine
  step-IsBlank Panel.press_edit_site s h = ((refl, h.1), tt)
  step-IsBlank Panel.press_delete_site s h = ((h.0, λ e. refl), tt)
  step-IsBlank Panel.press_add_line s h = (h, tt)
  step-IsBlank (Panel.press_edit_line l) s h = (h, tt)
  step-IsBlank (Panel.press_delete_line l) s h = ((h.0, λ e. absurd cc), tt)
  step-IsBlank (Panel.press_add_machine l) s h = (h, tt)
  step-IsBlank (Panel.press_edit_machine l m) s h = (h, tt)
  step-IsBlank (Panel.press_delete_machine m) s h = ((h.0, λ e. absurd cc), tt)
  step-IsBlank Panel.close_site s h = (h, tt)
  step-IsBlank Panel.close_line s h = (h, tt)
  step-IsBlank Panel.close_machine s h = (h, tt)
  step-IsBlank Panel.cancel_delete s h = ((h.0, tt), tt)
  step-IsBlank (Panel.confirm_delete answer) s h = confirm-IsBlank answer s.delete_target s h.1 h
  step-IsBlank (Panel.type_in_site v) s h = ((type_site-blank _ v s.site_form h.0, h.1), tt)
  step-IsBlank (Panel.type_line_name v) s h = (h, tt)
  step-IsBlank (Panel.type_line_order v) s h = (h, tt)
  step-IsBlank (Panel.type_machine_name v) s h = (h, tt)
  step-IsBlank (Panel.type_machine_model v) s h = (h, tt)
  step-IsBlank (Panel.save_site answer) s h =
      rw (submit_site-blank (some (read_answer site lines)) answer s.site_form h.0) (h, tt)
  step-IsBlank (Panel.save_line answer) s h =
      ((shut-IsBlank _ _ h).1, submit_line-IsLost site_id s.edit_line answer s.line_form)
  step-IsBlank (Panel.save_machine answer) s h = (
    (shut-IsBlank _ _ h).2,
    submit_machine-IsLost s.active_line s.edit_machine answer s.machine_form,
  )
  step-IsBlank Panel.detail_changed s h = elim (Bool-cases s.site_dialog_open) [
    | inl opened ↦ rw opened ((refl, h.1), tt)
    | inr shut ↦ rw shut (h, tt)
  ]

  run-IsBlank :
      (es : List Event) (s : State)
      → IsBlank s
      → All IsLost (run upper site_id (read_answer site lines) es s).1
  unfolding run
  run-IsBlank [] s h = tt
  run-IsBlank (e ∷ es) s h = let (next, sent) = step-IsBlank e s h in (sent, run-IsBlank es _ next)

  -- However the panel of a site is used from its first state on the answer that the server makes, it sends
  -- no update of a site, and every deletion of a site that it sends is for the id `undefined`.
  pub run-IsLost :
      (es : List Event) → All IsLost (run upper site_id (read_answer site lines) es initial).1
  run-IsLost es = run-IsBlank es initial (refl, tt)
