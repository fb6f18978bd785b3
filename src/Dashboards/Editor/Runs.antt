-- ===== src/Dashboards/Editor/Runs.antt =====
-- The editor and the grid: the layout that the one gives to the other.
use industry_dashboard.Base.{
  ◌≡◌, refl, ap, false, List, [], ◌∷◌, map, find?, includes, Distinct, Codes, ◌==◌, codes_eq,
  ==_iff, ==_refl, arith,
}
use industry_dashboard.Dashboards.Editor.{
  WidgetItem, Page, LayoutItem, place, on_layout_change, layout_item, layout,
}

module _ {C : Type 0} where
  abbrev widget_ids : List (WidgetItem C) → List Codes
  widget_ids ws = map (λ w. w.id) ws

  -- an item that is not looked for is passed over
  place_skip :
      (v : WidgetItem C) (items : List LayoutItem) (ws : List (WidgetItem C))
      → includes v.id (widget_ids ws) ≡ false
      → map (λ w. place (find? (λ l. l.i == w.id) (layout_item v ∷ items)) w) ws
        ≡ map (λ w. place (find? (λ l. l.i == w.id) items) w) ws
  place_skip v items [] h = refl
  place_skip v items (w ∷ ws) h =
      let other : (v.id == w.id) ≡ false = ground (arith, h, ==_iff v.id w.id, ==_iff w.id v.id) in
      rw (other, place_skip v items ws (ground (arith, h))) refl

  place_all :
      (ws : List (WidgetItem C))
      → Distinct (widget_ids ws)
      → map (λ w. place (find? (λ l. l.i == w.id) (map layout_item ws)) w) ws ≡ ws
  unfolding place
  place_all [] d = refl
  place_all (w ∷ ws) d =
      rw (==_refl w.id, place_skip w (map layout_item ws) ws d.0, place_all ws d.1) refl

  -- Where no two widgets have one id, the layout that the editor gives to the grid, reported back
  -- unchanged, changes nothing.
  pub on_layout_change-layout :
      (p : Page C) → Distinct (widget_ids p.widgets) → on_layout_change (layout p) p ≡ p
  unfolding on_layout_change layout
  on_layout_change-layout p d = ap (λ ws. record p { widgets = ws }) (place_all p.widgets d)
