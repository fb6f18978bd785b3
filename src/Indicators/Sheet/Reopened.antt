-- ===== src/Indicators/Sheet/Reopened.antt =====
-- The form of an indicator, frontend/src/components/widget-config/IndicatorConfig.tsx, opened on what it applied.
use industry_dashboard.Base.{
  ◌≡◌, refl, inl, inr, false, List, [], ◌∷◌, Option, none, some, Codes, codes, is_empty, All,
  filter, length, ◌==◌, nat_eq, Bool-cases,
}
use industry_dashboard.Indicators.Sheet.{
  Stored, Form, Event, type_title, pick_title_color, check_countdown, pick_style, pick_accent,
  pick_size, pick_weight, type_default, pick_default_color, change_sources, pick_default_animation,
  add_mapping, update_mapping, remove_mapping, or_text, opened, step, run, is_valid, saved, apply,
}

-- a choice among things that are not the empty text; what is typed may be empty
abbrev pub IsOffered : Event → Type 0
IsOffered (pick_style v) = is_empty v ≡ false
IsOffered (pick_accent v) = is_empty v ≡ false
IsOffered (pick_size v) = is_empty v ≡ false
IsOffered (pick_weight v) = is_empty v ≡ false
IsOffered (pick_default_color v) = is_empty v ≡ false
IsOffered _ = Unit

-- the fields that are picked are not empty
abbrev IsPicked : Form → Type 0
IsPicked f =
    (is_empty f.widget_style ≡ false)
    × (is_empty f.accent_color ≡ false)
    × (is_empty f.default_color ≡ false)
    × (is_empty f.font_size ≡ false)
    × (is_empty f.font_weight ≡ false)

or_text_given : (o : Option Codes) (d : Codes) → is_empty d ≡ false → is_empty (or_text o d) ≡ false
or_text_given none d h = h
or_text_given (some s) d h = elim (Bool-cases (is_empty s)) [
  | inl e ↦ rw (e, h) refl
  | inr e ↦ rw (e, e) refl
]

opened-IsPicked : {R : Type 0} (uuid : Codes) (c : Stored R) → IsPicked (opened uuid c)
unfolding opened
opened-IsPicked uuid c = (
  or_text_given c.widget_style (codes "default") refl,
  or_text_given c.accent_color (codes "#3b82f6") refl,
  or_text_given c.default_color (codes "#94a3b8") refl,
  or_text_given c.font_size (codes "3xl") refl,
  or_text_given c.font_weight (codes "bold") refl,
)

step-IsPicked : (e : Event) (f : Form) → IsOffered e → IsPicked f → IsPicked (step e f)
unfolding step
step-IsPicked (type_title v) f o h = h
step-IsPicked (pick_title_color v) f o h = h
step-IsPicked (check_countdown v) f o h = h
step-IsPicked (pick_style v) f o (s, a, d, z, w) = (o, a, d, z, w)
step-IsPicked (pick_accent v) f o (s, a, d, z, w) = (s, o, d, z, w)
step-IsPicked (pick_size v) f o (s, a, d, z, w) = (s, a, d, o, w)
step-IsPicked (pick_weight v) f o (s, a, d, z, w) = (s, a, d, z, o)
step-IsPicked (type_default v) f o h = h
step-IsPicked (pick_default_color v) f o (s, a, d, z, w) = (s, a, o, z, w)
step-IsPicked (change_sources v) f o h = h
step-IsPicked (pick_default_animation v) f o h = h
step-IsPicked (add_mapping v) f o h = h
step-IsPicked (update_mapping i c) f o h = h
step-IsPicked (remove_mapping i) f o h = h

run-IsPicked : (es : List Event) (f : Form) → All IsOffered es → IsPicked f → IsPicked (run es f)
unfolding run
run-IsPicked [] f o h = h
run-IsPicked (e ∷ es) f (o, os) h = run-IsPicked es (step e f) os (step-IsPicked e f o h)

or_text_self : (s : Codes) → or_text (some s) [] ≡ s
or_text_self [] = refl
or_text_self (c ∷ s) = refl

-- what the form shows when it is opened again: an empty default text is not kept
abbrev pub reopened : Form → Form
reopened f = record f { default_text = or_text (some f.default_text) (codes "N/A") }

others_kept : {R : Type 0} (c : Stored R) (f : Form) → (saved c f).others ≡ c.others
unfolding saved
others_kept c f = refl

opened-saved :
    {R : Type 0} (uuid : Codes) (c : Stored R) (f : Form)
    → IsPicked f
    → opened uuid (saved c f) ≡ reopened f
unfolding opened saved
opened-saved uuid c f (s, a, d, z, w) =
    rw (or_text_self f.title, or_text_self f.title_color, s, a, d, z, w) refl

-- Where the form for an indicator has a source with a machine and a metric, Apply is enabled after any run of
-- events whose picks are not empty, it keeps the fields of the configuration that the form does not know, and the
-- form opened on the result is the form that was left, but for a default text that was emptied, which is N/A again.
pub opened-apply :
    {R : Type 0} (uuid uuid' : Codes) (c : Stored R) (es : List Event)
    → All IsOffered es
    → (length (filter is_valid (run es (opened uuid c)).data_sources) == 0) ≡ false
    → (c' : Stored R) × ((apply c (run es (opened uuid c)) ≡ some c')
        × ((c'.others ≡ c.others) × (opened uuid' c' ≡ reopened (run es (opened uuid c)))))
unfolding apply
opened-apply uuid uuid' c es os v =
    let f = run es (opened uuid c) in
    (
      saved c f,
      (
        rw v refl,
        (
          others_kept c f,
          opened-saved uuid' c f (run-IsPicked es (opened uuid c) os (opened-IsPicked uuid c)),
        ),
      ),
    )
