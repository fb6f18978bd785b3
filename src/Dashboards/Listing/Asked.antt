-- ===== src/Dashboards/Listing/Asked.antt =====
-- Which changes frontend/src/pages/dashboards/DashboardListPage.tsx sends, and whose dialogs it opens.
use industry_dashboard.Base.{
  ◌≡◌, refl, subst, inl, inr, Bool, true, false, ◌&&◌, ◌||◌, List, [], ◌∷◌, ◌++◌, All, any,
  any-append, any_snoc, any_last, Option, none, some, Codes, is_empty, trim, trim_idem, codes_eq,
  ◌==◌, ==_refl, arith, Bool-cases, append_assoc, append-nil, sym,
}
use industry_dashboard.Dashboards.Listing
use industry_dashboard.Dashboards.Listing.{
  Dashboard, Target, Page, Event, initial, handle_create, handle_delete, handle_rename, can_edit,
  is_owner, step, run,
}

-- a click on Rename, or on Delete, or on Share at the card of a dashboard with this id that offers it
abbrev pub is_rename_click : Codes → Event → Bool
is_rename_click id (Listing.click_rename d) = can_edit d && d.id == id
is_rename_click id _ = false

abbrev pub is_delete_click : Codes → Event → Bool
is_delete_click id (Listing.click_delete d) = can_edit d && d.id == id
is_delete_click id _ = false

abbrev pub is_share_click : Option Codes → Codes → Event → Bool
is_share_click user id (Listing.click_share d) = can_edit d && is_owner user d && d.id == id
is_share_click user id _ = false

-- a change that was asked for in the events, with titles that are not empty; a new title is trimmed
abbrev pub IsAsked : Option Codes → List Event → Option Listing.Sent → Type 0
IsAsked site es none = Unit
IsAsked site es (some (Listing.create title site_id)) =
    (is_empty title ≡ false) × (site ≡ some site_id)
IsAsked site es (some (Listing.delete id)) = any (is_delete_click id) es ≡ true
IsAsked site es (some (Listing.rename id title)) =
    (any (is_rename_click id) es ≡ true) × (trim title ≡ title) × (is_empty title ≡ false)

abbrev IsTarget : (Codes → Event → Bool) → List Event → Option Target → Type 0
IsTarget click es none = Unit
IsTarget click es (some t) = any (click t.id) es ≡ true

abbrev pub IsShared : Option Codes → List Event → Option Codes → Type 0
IsShared user es none = Unit
IsShared user es (some id) = any (is_share_click user id) es ≡ true

-- every dialog stands open for a dashboard at which it was asked for
abbrev IsOpen : Option Codes → List Event → Page → Type 0
IsOpen user es p =
    IsTarget is_delete_click es p.delete_target
    × IsTarget is_rename_click es p.rename_target
    × IsShared user es p.share_target_id

IsTarget-snoc :
    (click : Codes → Event → Bool) (es : List Event) (e : Event) (t : Option Target)
    → IsTarget click es t
    → IsTarget click (es ++ e ∷ []) t
IsTarget-snoc click es e none h = tt
IsTarget-snoc click es e (some t) h = any_snoc (click t.id) es e h

IsShared-snoc :
    (user : Option Codes) (es : List Event) (e : Event) (t : Option Codes)
    → IsShared user es t
    → IsShared user (es ++ e ∷ []) t
IsShared-snoc user es e none h = tt
IsShared-snoc user es e (some id) h = any_snoc (is_share_click user id) es e h

IsOpen-snoc :
    (user : Option Codes) (es : List Event) (e : Event) (p : Page)
    → IsOpen user es p
    → IsOpen user (es ++ e ∷ []) p
IsOpen-snoc user es e p (d, r, s) = (
  IsTarget-snoc is_delete_click es e p.delete_target d,
  IsTarget-snoc is_rename_click es e p.rename_target r,
  IsShared-snoc user es e p.share_target_id s,
)

handle_create-IsAsked :
    (es : List Event) (site : Option Codes) (p : Page) → IsAsked site es (handle_create site p).1
unfolding handle_create
handle_create-IsAsked es none p = tt
handle_create-IsAsked es (some id) p = elim (Bool-cases (is_empty p.new_title)) [
  | inl e ↦ rw e tt
  | inr e ↦ rw e (e, refl)
]

handle_create-IsOpen :
    (user : Option Codes) (es : List Event) (site : Option Codes) (p : Page)
    → IsOpen user es p
    → IsOpen user es (handle_create site p).0
unfolding handle_create
handle_create-IsOpen user es none p h = h
handle_create-IsOpen user es (some id) p h = elim (Bool-cases (is_empty p.new_title)) [
  | inl e ↦ rw e h
  | inr e ↦ rw e h
]

handle_delete_lem :
    (user site : Option Codes) (es : List Event) (t : Option Target) (p : Page)
    → IsTarget is_delete_click es t
    → IsOpen user es p
    → IsOpen user es (handle_delete t p).0 × IsAsked site es (handle_delete t p).1
unfolding handle_delete
handle_delete_lem user site es none p h o = (o, tt)
handle_delete_lem user site es (some t) p h (d, r, s) = ((tt, r, s), h)

handle_rename_lem :
    (user site : Option Codes) (es : List Event) (t : Option Target) (p : Page)
    → IsTarget is_rename_click es t
    → IsOpen user es p
    → IsOpen user es (handle_rename t p).0 × IsAsked site es (handle_rename t p).1
unfolding handle_rename
handle_rename_lem user site es none p h o = (o, tt)
handle_rename_lem user site es (some t) p h (d, r, s) =
    elim (Bool-cases (is_empty (trim p.rename_value))) [
      | inl e ↦ rw e ((d, r, s), tt)
      | inr e ↦ rw e ((d, tt, s), (h, trim_idem p.rename_value, e))
    ]

step_lem :
    (user site : Option Codes) (es : List Event) (e : Event) (p : Page)
    → IsOpen user es p
    → IsOpen user (es ++ e ∷ []) (step user site e p).0
      × IsAsked site (es ++ e ∷ []) (step user site e p).1
unfolding step
step_lem user site es (Listing.type_title v) p h = (IsOpen-snoc user es _ p h, tt)
step_lem user site es (Listing.type_rename v) p h = (IsOpen-snoc user es _ p h, tt)
step_lem user site es Listing.press_create p h = (
  handle_create-IsOpen user (es ++ Listing.press_create ∷ []) site p (IsOpen-snoc user es _ p h),
  handle_create-IsAsked (es ++ Listing.press_create ∷ []) site p,
)
step_lem user site es Listing.click_create p h =
    elim (Bool-cases (is_empty p.new_title || p.pending)) [
      | inl e ↦ rw e (IsOpen-snoc user es _ p h, tt)
      | inr e ↦ rw e (
        handle_create-IsOpen user (es ++ Listing.click_create ∷ []) site p
            (IsOpen-snoc user es _ p h),
        handle_create-IsAsked (es ++ Listing.click_create ∷ []) site p,
      )
    ]
step_lem user site es Listing.create_failed p h = (IsOpen-snoc user es _ p h, tt)
step_lem user site es (Listing.created id) p h = (IsOpen-snoc user es _ p h, tt)
step_lem user site es (Listing.click_rename d) p h =
    let (x, r, s) = IsOpen-snoc user es (Listing.click_rename d) p h in
    elim (Bool-cases (can_edit d)) [
      | inl e ↦ rw e (
        (
          x,
          any_last (is_rename_click d.id) es (Listing.click_rename d) (rw (e, ==_refl d.id) refl),
          s,
        ),
        tt,
      )
      | inr e ↦ rw e ((x, r, s), tt)
    ]
step_lem user site es (Listing.click_share d) p h =
    let (x, r, s) = IsOpen-snoc user es (Listing.click_share d) p h in
    elim (Bool-cases (can_edit d && is_owner user d)) [
      | inl e ↦ rw e (
        (
          x,
          r,
          any_last (is_share_click user d.id) es (Listing.click_share d)
              (ground (arith, e, ==_refl d.id)),
        ),
        tt,
      )
      | inr e ↦ rw e ((x, r, s), tt)
    ]
step_lem user site es (Listing.click_delete d) p h =
    let (x, r, s) = IsOpen-snoc user es (Listing.click_delete d) p h in
    elim (Bool-cases (can_edit d)) [
      | inl e ↦ rw e (
        (
          any_last (is_delete_click d.id) es (Listing.click_delete d) (rw (e, ==_refl d.id) refl),
          r,
          s,
        ),
        tt,
      )
      | inr e ↦ rw e ((x, r, s), tt)
    ]
step_lem user site es Listing.submit_rename p h =
    let o = IsOpen-snoc user es Listing.submit_rename p h in
    handle_rename_lem user site (es ++ Listing.submit_rename ∷ []) p.rename_target p o.1 o
step_lem user site es Listing.close_rename p h =
    let (x, r, s) = IsOpen-snoc user es Listing.close_rename p h in ((x, tt, s), tt)
step_lem user site es Listing.close_share p h =
    let (x, r, s) = IsOpen-snoc user es Listing.close_share p h in ((x, r, tt), tt)
step_lem user site es Listing.confirm_delete p h =
    let o = IsOpen-snoc user es Listing.confirm_delete p h in
    handle_delete_lem user site (es ++ Listing.confirm_delete ∷ []) p.delete_target p o.0 o
step_lem user site es Listing.close_delete p h =
    let (x, r, s) = IsOpen-snoc user es Listing.close_delete p h in ((tt, r, s), tt)

IsAsked-append :
    (site : Option Codes) (es fs : List Event) (a : Option Listing.Sent)
    → IsAsked site es a
    → IsAsked site (es ++ fs) a
IsAsked-append site es fs none h = tt
IsAsked-append site es fs (some (Listing.create title id)) h = h
IsAsked-append site es fs (some (Listing.delete id)) h =
    rw (any-append (is_delete_click id) es fs, h) refl
IsAsked-append site es fs (some (Listing.rename id title)) (c, t, n) =
    (rw (any-append (is_rename_click id) es fs, c) refl, t, n)

run_after :
    (user site : Option Codes) (es fs : List Event) (p : Page)
    → IsOpen user es p
    → All (IsAsked site (es ++ fs)) (run user site fs p).1
      × IsShared user (es ++ fs) (run user site fs p).0.share_target_id
unfolding run
run_after user site es [] p (d, r, s) =
    (tt, subst (λ l. IsShared user l p.share_target_id) (sym (append-nil es)) s)
run_after user site es (e ∷ fs) p h =
    let (o, sent) = step_lem user site es e p h in
    let same : (es ++ e ∷ []) ++ fs ≡ es ++ e ∷ fs = append_assoc es (e ∷ []) fs in
    let q = (step user site e p).0 in
    let (all, share) = run_after user site (es ++ e ∷ []) fs q o in
    (
      (
        subst (λ l. IsAsked site l (step user site e p).1) same
            (IsAsked-append site (es ++ e ∷ []) fs (step user site e p).1 sent),
        subst (λ l. All (IsAsked site l) (run user site fs q).1) same all,
      ),
      subst (λ l. IsShared user l (run user site fs q).0.share_target_id) same share,
    )

-- However the list of dashboards is used from its first state, a dashboard is created only with a title that is not
-- empty and at the current site, deleted or renamed only after a click on that button at its card where the user
-- can edit it, and renamed only to a trimmed title that is not empty; the dialog for sharing stands open only for a
-- dashboard at which the user, who can edit it and owns it, clicked Share.
pub run-IsAsked :
    (user site : Option Codes) (es : List Event)
    → All (IsAsked site es) (run user site es initial).1
      × IsShared user es (run user site es initial).0.share_target_id
run-IsAsked user site es = run_after user site [] es initial (tt, tt, tt)
