-- ===== src/Widgets/Kinds.antt =====
-- The kinds of widgets that frontend/src/components/widgets/WidgetRenderer.tsx and
-- components/widget-config/WidgetConfigSheet.tsx know.
use industry_dashboard.Base.{
  ◌≡◌, refl, ◌∙◌, sym, inl, inr, Bool, true, false, List, [], ◌∷◌, map, String, Option, none, some,
  Codes, codes, any, ◌==◌, codes_eq, Bool-cases,
}
use industry_dashboard.Widgets.{table, widgets, default_labels, config_forms, component_of, form_of}

abbrev pub is_given : {A : Type 0} → Option A → Bool
is_given none = false
is_given (some a) = true

abbrev names : {A : Type 0} → List (String × A) → List String
names entries = map (λ e. e.0) entries

-- A table has an entry for its names and no others.
is_given-table :
    {A : Type 0} (key : Codes) (entries : List (String × A))
    → is_given (table key entries) ≡ any (λ name. codes name == key) (names entries)
unfolding table
is_given-table key [] = refl
is_given-table key ((name, a) ∷ entries) = elim (Bool-cases (codes name == key)) [
  | inl e ↦ rw e refl
  | inr e ↦ rw e (is_given-table key entries)
]

-- A text names a widget exactly if it names a form for its configuration, and exactly if it has a default label.
pub is_given-component_of :
    (widget_type : Codes)
    → (is_given (component_of widget_type) ≡ is_given (form_of widget_type))
      × (is_given (component_of widget_type) ≡ is_given (table widget_type default_labels))
unfolding component_of form_of
is_given-component_of widget_type =
    let w = is_given-table widget_type widgets in
    (
      w ∙ sym (is_given-table widget_type config_forms),
      w ∙ sym (is_given-table widget_type default_labels),
    )
