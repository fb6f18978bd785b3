-- ===== src/Alerts/Rules/Confirmation.antt =====
-- The mutations that the page sends over a run of events.
use industry_dashboard.Base.{
  ◌≡◌, ◌≢◌, refl, Bool, true, false, String, List, [], ◌∷◌, All, any, includes, Distinct,
  Distinct-toggle, Option-cases, inl, inr, Option, none, some, string_eq, arith,
}
use industry_dashboard.Alerts.Rules.{
  Page, DeleteTarget, enable, disable, delete, Command, bulk_action, delete_alert, Event,
  pick_machine, select, select_all, bulk, ask_delete, confirm_delete, filtered, delete_of, first,
  handle_delete, step, run, initial,
}
use industry_dashboard.Alerts.Rules.Selection.{Distinct-toggle_all}

-- A target of the dialog: no id twice, and an id if it is not a bulk.
abbrev IsTarget : Option DeleteTarget → Type 0
IsTarget none = Unit
IsTarget (some t) = Distinct t.ids × (t.bulk ≡ false → first t.ids ≢ none)

-- A mutation that the server can carry out: no id twice, no missing id, for this site.
abbrev pub IsClean : String → Option Command → Type 0
IsClean site_id none = Unit
IsClean site_id (some (bulk_action s is a)) = (s ≡ site_id) × Distinct is
IsClean site_id (some (delete_alert s i)) = (s ≡ site_id) × (i ≢ none)

abbrev pub is_delete : Option Command → Bool
is_delete none = false
is_delete (some (bulk_action s is delete)) = true
is_delete (some (bulk_action s is _)) = false
is_delete (some (delete_alert s i)) = true

delete_of-IsClean :
    (site_id : String) (t : DeleteTarget)
    → IsTarget (some t)
    → IsClean site_id (some (delete_of site_id t))
unfolding delete_of
delete_of-IsClean site_id t h = ground arith

module _ {N : Type 0} where
  record IsValid (p : Page N) : Type 0 where
    selection : Distinct p.selected_ids
    target : IsTarget p.delete_target

  abbrev is_confirm : Event N → Bool
  is_confirm (confirm_delete answer) = true
  is_confirm _ = false

  handle_delete-IsValid :
      (site_id : String) (answer : Bool) (p : Page N)
      → IsValid p
      → IsValid (handle_delete site_id answer p).0
        × IsClean site_id (handle_delete site_id answer p).1
  unfolding handle_delete
  handle_delete-IsValid site_id answer p v = elim (Option-cases p.delete_target) [
    | inl nothing ↦ ground arith
    | inr (t, asked) ↦
        let clean = delete_of-IsClean site_id t (rw asked at v.target) in ground arith
  ]

  step-IsValid :
      (site_id : String) (e : Event N) (p : Page N)
      → IsValid p
      → IsValid (step site_id e p).0 × IsClean site_id (step site_id e p).1
  unfolding step
  step-IsValid site_id (select id) p v =
      (record { selection = Distinct-toggle id p.selected_ids v.selection; target = v.target }, tt)
  step-IsValid site_id (select_all rules) p v =
      (record { selection = Distinct-toggle_all (filtered p rules) p; target = v.target }, tt)
  step-IsValid site_id (bulk enable answer) p v = ground arith
  step-IsValid site_id (bulk disable answer) p v = ground arith
  step-IsValid site_id (bulk delete answer) p v = ground arith
  step-IsValid site_id (confirm_delete answer) p v = handle_delete-IsValid site_id answer p v
  step-IsValid site_id (ask_delete id) p v = ground arith
  step-IsValid site_id (pick_machine m) p v = ground arith
  step-IsValid site_id _ p v = ground arith

  run-IsClean :
      (site_id : String) (es : List (Event N)) (p : Page N)
      → IsValid p
      → All (IsClean site_id) (run site_id es p).1
  unfolding run
  run-IsClean site_id [] p v = tt
  run-IsClean site_id (e ∷ es) p v =
      let (v', clean) = step-IsValid site_id e p v in
      (clean, run-IsClean site_id es (step site_id e p).0 v')

  step-is_delete :
      (site_id : String) (e : Event N) (p : Page N)
      → is_confirm e ≡ false
      → is_delete (step site_id e p).1 ≡ false
  unfolding step
  step-is_delete site_id (bulk enable answer) p h = refl
  step-is_delete site_id (bulk disable answer) p h = refl
  step-is_delete site_id (bulk delete answer) p h = refl
  step-is_delete site_id (confirm_delete answer) p h = cc
  step-is_delete site_id _ p h = refl

  -- However the page is used from its first state, every mutation that it sends is for the page's
  -- site, names no rule twice, and names a rule where it deletes one.
  pub run-initial-IsClean :
      (site_id : String) (es : List (Event N))
      → All (IsClean site_id) (run site_id es (initial N)).1
  run-initial-IsClean site_id es = run-IsClean site_id es (initial N) (ground arith)

  -- No deletion is sent, of one rule or of many, unless the user confirms one in the dialog.
  pub run-is_delete :
      (site_id : String) (es : List (Event N)) (p : Page N)
      → any is_confirm es ≡ false
      → any is_delete (run site_id es p).1 ≡ false
  unfolding run
  run-is_delete site_id [] p h = refl
  run-is_delete site_id (e ∷ es) p h =
      rw (step-is_delete site_id e p (ground arith))
        (run-is_delete site_id es (step site_id e p).0 (ground arith))

  -- After one rule is deleted from its row, the selection still holds that rule, if it was selected.
  pub handle_delete-stale :
      (site_id id : String) (p : Page N)
      → p.delete_target ≡ some (record { ids = id ∷ []; bulk = false })
      → includes id p.selected_ids ≡ true
      → ((handle_delete site_id true p).1 ≡ some (delete_alert site_id (some id)))
        × (includes id (handle_delete site_id true p).0.selected_ids ≡ true)
  unfolding handle_delete
  handle_delete-stale site_id id p asked chosen = ground arith
