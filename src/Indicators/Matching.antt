-- ===== src/Indicators/Matching.antt =====
-- `matchMapping` and the markup of frontend/src/components/widgets/IndicatorWidget.tsx: which mapping a value
-- has, and the text, the color and the animation that are shown.
pub mod First
use industry_dashboard.Base.{
  ℕ, Bool, true, false, not, ◌&&◌, ◌||◌, List, [], ◌∷◌, ◌++◌, String, Option, none, some, Codes,
  codes, is_empty, trim, starts_with, drop, ◌==◌, nat_eq, codes_eq, if◌then◌else◌,
}
use industry_dashboard.Indicators.{
  Animation, no_animation, blink, marquee, warning, ValueMapping, Source, Numbers,
}
use industry_dashboard.Indicators.Ranges.{range_match}

-- a comparison with `Number(s)`, which does not hold for NaN
abbrev pub holds {ℓ} : {A : Type ℓ} → (A → Bool) → Option A → Bool
holds p none = false
holds p (some a) = p a

abbrev or_text : Option Codes → Codes → Codes
or_text none d = d
or_text (some s) d = if is_empty s then d else s

abbrev or_list {ℓ} : {A : Type ℓ} → Option (List A) → List A
or_list none = []
or_list (some xs) = xs

-- the configuration, where a field may be missing
pub record Config : Type 0 where
  pub data_sources : Option (List Source)
  pub mappings : Option (List ValueMapping)
  pub default_text : Option Codes
  pub default_color : Option Codes
  pub default_animation : Option Animation
  pub font_size : Option Codes
  pub font_weight : Option Codes

-- `FONT_SIZE_CLASS[fontSize] || 'text-3xl'`
font_class : Codes → String
font_class s =
    if s == codes "sm"
    then "text-sm"
    else if s == codes "base"
    then "text-base"
    else if s == codes "lg"
    then "text-lg"
    else if s == codes "xl"
    then "text-xl"
    else if s == codes "2xl"
    then "text-2xl"
    else if s == codes "3xl"
    then "text-3xl"
    else if s == codes "4xl"
    then "text-4xl"
    else if s == codes "5xl"
    then "text-5xl"
    else "text-3xl"

-- `ANIMATION_CLASS`
animation_class : Animation → String
animation_class no_animation = ""
animation_class blink = "indicator-blink"
animation_class marquee = "indicator-marquee"
animation_class warning = "indicator-warning"

-- what is displayed for a value
pub record Indicator : Type 0 where
  pub text : Codes
  pub color : Codes
  pub size_class : String
  pub weight_class : String
  pub animation_class : String
  pub title : Option Codes

pub data View : Type 0 where
  not_configured loading : View
  shown : Indicator → View

-- the query for the latest values: it waits, it failed, or it has values by name
pub data Latest (N : Type 0) : Type 0 where
  waiting failed : Latest N
  answered : List (Codes × N) → Latest N

value_in {ℓ} : {N : Type ℓ} → Codes → List (Codes × N) → Option N
value_in metric [] = none
value_in metric ((name, x) ∷ values) =
    let rest = value_in metric values in if name == metric then some x else rest

-- `latest?.[ds.metric]`
latest_of : {N : Type 0} → Codes → Latest N → Option N
unfolding value_in
latest_of metric waiting = none
latest_of metric failed = none
latest_of metric (answered values) = value_in metric values

is_loading : {N : Type 0} → Latest N → Bool
is_loading waiting = true
is_loading failed = false
is_loading (answered _) = false

module _ {N : Type 0} (numbers : Numbers N) where
  -- `value >= lo && value <= hi` for the two groups of the expression
  abbrev pub is_between : N → Option (Codes × Codes) → Bool
  is_between x none = false
  is_between x (some (lo, hi)) =
      holds (λ a. numbers.at_most a x) (numbers.read lo)
      && holds (λ b. numbers.at_most x b) (numbers.read hi)

  -- `v.startsWith('>=') && value >= Number(v.slice(2))` and the like
  abbrev pub test_at_least : N → Codes → Bool
  test_at_least x v =
      starts_with v (codes ">=") && holds (λ a. numbers.at_most a x) (numbers.read (drop 2 v))

  abbrev pub test_at_most : N → Codes → Bool
  test_at_most x v =
      starts_with v (codes "<=") && holds (λ a. numbers.at_most x a) (numbers.read (drop 2 v))

  abbrev pub test_above : N → Codes → Bool
  test_above x v =
      starts_with v (codes ">") && holds (λ a. numbers.less a x) (numbers.read (drop 1 v))

  abbrev pub test_below : N → Codes → Bool
  test_below x v =
      starts_with v (codes "<") && holds (λ a. numbers.less x a) (numbers.read (drop 1 v))

  -- the tests of the loop in their order; the mapping is returned by the first that holds
  pub matches : N → Codes → Bool
  unfolding range_match
  matches x v =
      (v == numbers.show x)
      || (test_at_least x v
          || (test_at_most x v
              || (test_above x v || (test_below x v || is_between x (range_match v)))))

  first_match : N → List ValueMapping → Option ValueMapping
  unfolding matches trim
  first_match x [] = none
  first_match x (m ∷ ms) =
      let rest = first_match x ms in if matches x (trim m.value) then some m else rest

  unfoldable pub match_mapping : Option N → List ValueMapping → Option ValueMapping
  unfolding first_match
  match_mapping none ms = none
  match_mapping (some x) ms = first_match x ms

  -- `matched?.text || defaultText` and the like; an animation is never an empty text
  display_text : Option ValueMapping → Codes → Codes
  display_text none d = d
  display_text (some m) d = or_text (some m.text) d

  display_color : Option ValueMapping → Codes → Codes
  display_color none d = d
  display_color (some m) d = or_text (some m.color) d

  animation_of : Option ValueMapping → Option Animation → Animation
  animation_of none none = no_animation
  animation_of none (some a) = a
  animation_of (some m) d = m.animation

  title_of : Option N → Option Codes
  title_of none = none
  title_of (some x) = some (codes "Raw: " ++ numbers.show x)

  indicator : Config → Option N → Indicator
  unfolding match_mapping display_text display_color animation_of title_of font_class
      animation_class
  indicator config value =
      let matched = match_mapping value (or_list config.mappings) in
      record {
        text = display_text matched (or_text config.default_text (codes "N/A"));
        color = display_color matched (or_text config.default_color (codes "#94a3b8"));
        size_class = font_class (or_text config.font_size (codes "3xl"));
        weight_class =
            if or_text config.font_weight (codes "bold") == codes "bold"
            then "font-bold"
            else "font-normal";
        animation_class = animation_class (animation_of matched config.default_animation);
        title = title_of value;
      }

  view_of : Config → List Source → Latest N → View
  unfolding indicator is_loading latest_of
  view_of config [] latest = not_configured
  view_of config (ds ∷ _) latest =
      if is_empty ds.machine_id || is_empty ds.metric
      then not_configured
      else if is_loading latest
      then loading
      else shown (indicator config (latest_of ds.metric latest))

  -- `IndicatorWidget`
  unfoldable pub indicator_widget : Config → Latest N → View
  unfolding view_of
  indicator_widget config latest = view_of config (or_list config.data_sources) latest
