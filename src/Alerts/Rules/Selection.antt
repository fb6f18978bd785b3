-- ===== src/Alerts/Rules/Selection.antt =====
-- The selection of rules.
use industry_dashboard.Base.{
  ◌≡◌, ◌≢◌, refl, true, false, ◌||◌, String, List, [], ◌∷◌, ◌++◌, all, includes, Distinct,
  Distinct-snoc, includes-append, string_eq, if◌then◌else◌, arith, ==_refl, ==_iff,
}
use industry_dashboard.Alerts.Rule.{AlertRule}
use industry_dashboard.Alerts.Rules.{Page, to_set, ids, all_selected, toggle_all}

includes-to_set :
    (j : String) (seen is : List String)
    → includes j (to_set seen is) ≡ (includes j seen || includes j is)
unfolding to_set
includes-to_set j seen [] = ground arith
includes-to_set j seen (i ∷ is) = ground (
  arith,
  includes-to_set j (if includes i seen then seen else seen ++ i ∷ []) is,
  includes-append j seen (i ∷ []),
  ==_iff i j,
)

Distinct-to_set : (seen is : List String) → Distinct seen → Distinct (to_set seen is)
unfolding to_set
Distinct-to_set seen [] d = d
Distinct-to_set seen (i ∷ is) d = ground (
  arith,
  Distinct-to_set (if includes i seen then seen else seen ++ i ∷ []) is,
  Distinct-snoc i seen,
)

module _ {N : Type 0} where
  pub Distinct-toggle_all :
      (shown : List (AlertRule N)) (p : Page N) → Distinct (toggle_all shown p).selected_ids
  unfolding toggle_all
  Distinct-toggle_all shown p = ground (arith, Distinct-to_set [] (ids shown) tt)

  includes-toggle_all :
      (j : String) (shown : List (AlertRule N)) (p : Page N)
      → includes j (toggle_all shown p).selected_ids
        ≡ (if all_selected p shown then false else includes j (ids shown))
  unfolding toggle_all
  includes-toggle_all j shown p = ground (arith, includes-to_set j [] (ids shown))

-- If all of `ys` are in `xs`, the test over `ys` passes.
all-includes :
    (xs ys : List String)
    → ((j : String) → includes j ys ≡ true → includes j xs ≡ true)
    → all (λ i. includes i xs) ys ≡ true
all-includes xs [] h = refl
all-includes xs (y ∷ ys) h =
    ground (arith, h y, ==_refl y, all-includes xs ys (λ j k. h j (ground arith)))

module _ {N : Type 0} where
  toggle_all-all_selected :
      (shown : List (AlertRule N)) (p : Page N)
      → shown ≢ []
      → all_selected p shown ≡ false
      → all_selected (toggle_all shown p) shown ≡ true
  unfolding all_selected
  toggle_all-all_selected [] p some_shown h = absurd (some_shown refl)
  toggle_all-all_selected (r ∷ rs) p some_shown h =
      all-includes (toggle_all (r ∷ rs) p).selected_ids (ids (r ∷ rs))
        (λ j k. rw (includes-toggle_all j (r ∷ rs) p, h) k)

  toggle_all-nil :
      (shown : List (AlertRule N)) (p : Page N)
      → all_selected p shown ≡ true
      → (toggle_all shown p).selected_ids ≡ []
  unfolding toggle_all
  toggle_all-nil shown p h = ground arith

  -- The header's check box, where some rule is shown and not all of those are selected: one click
  -- selects the shown rules and no other and checks the box, a second click empties the selection.
  pub toggle_all_twice :
      (shown : List (AlertRule N)) (p : Page N)
      → shown ≢ []
      → all_selected p shown ≡ false
      → ((j : String) → includes j (toggle_all shown p).selected_ids ≡ includes j (ids shown))
        × (all_selected (toggle_all shown p) shown ≡ true)
        × ((toggle_all shown (toggle_all shown p)).selected_ids ≡ [])
  toggle_all_twice shown p some_shown h =
      let checked = toggle_all-all_selected shown p some_shown h in
      (
        λ j. rw (includes-toggle_all j shown p, h),
        checked,
        toggle_all-nil shown (toggle_all shown p) checked,
      )
