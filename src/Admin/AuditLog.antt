-- ===== src/Admin/AuditLog.antt =====
-- The filters and the paging of AuditLogPage.tsx.
use industry_dashboard.Base.{
  ℕ, ◌+◌, ◌-◌, ◌*◌, ◌≤◌, ◌<◌, ◌≡◌, ◌⊎◌, inl, inr, refl, String, List, [], ◌∷◌, All, leb, ◌==◌,
  nat_eq, string_eq, max, arith, if◌then◌else◌, Bool-cases, Option, none, some,
}

pub record Page : Type 0 where
  pub action : String
  pub resource_type : String
  pub page : ℕ

abbrev pub initial : Page
initial = record { action = ""; resource_type = ""; page = 0 }

abbrev limit : ℕ
limit = 25

unfoldable pub offset : Page → ℕ
offset p = p.page * limit

-- The total is `none` while nothing is loaded. A disabled button does nothing.
pub data Event : Type 0 where
  pick_action pick_resource_type : String → Event
  prev : Event
  next : (total : Option ℕ) → Event

unfoldable pub step : Event → Page → Page
step (pick_action v) p = record p { action = v }
step (pick_resource_type v) p = record p { resource_type = v }
step prev p = if p.page == 0 then p else record p { page = max 0 (p.page - 1) }
step (next none) p = p
step (next (some total)) p =
    if leb total ((p.page + 1) * limit) then p else record p { page = p.page + 1 }

unfoldable pub run : List Event → Page → Page
unfolding step
run [] p = p
run (e ∷ es) p = run es (step e p)

-- The total of every event that has one is this.
abbrev HasTotal : ℕ → Event → Type 0
HasTotal total (next (some t)) = t ≡ total
HasTotal total _ = Unit

abbrev pub IsInside : ℕ → Page → Type 0
IsInside total p = (offset p < total) ⊎ (offset p ≡ 0)

step-IsInside :
    (total : ℕ) (e : Event) (p : Page)
    → HasTotal total e
    → IsInside total p
    → IsInside total (step e p)
unfolding step offset
step-IsInside total (pick_action v) p h i = i
step-IsInside total (pick_resource_type v) p h i = i
step-IsInside total prev p h i = ground (arith, i)
step-IsInside total (next none) p h i = i
step-IsInside total (next (some t)) p h i = elim (Bool-cases (leb t ((p.page + 1) * limit))) [
  | inl last ↦ rw last i
  | inr more ↦ rw more (inl (ground (arith, more, h)))
]

-- While the count of log entries stays the same, no use of the buttons and of the filters from the
-- first state asks for a window past the last entry: the offset is below the count, or it is 0.
pub run-IsInside :
    (total : ℕ) (es : List Event) → All (HasTotal total) es → IsInside total (run es initial)
unfolding run offset
run-IsInside total es h = from es initial h (inr refl)
  where
    from :
        (es : List Event) (p : Page)
        → All (HasTotal total) es
        → IsInside total p
        → IsInside total (run es p)
    from [] p h i = i
    from (e ∷ es) p h i = from es (step e p) h.1 (step-IsInside total e p h.0 i)

-- A filter that leaves no more entries than stand before the page on the screen is chosen: the page
-- stays where it is, past the last entry, and the button to the next page does nothing.
pub pick-past_end :
    (v : String) (total : ℕ) (p : Page)
    → total ≤ offset p
    → let q = step (pick_action v) p in (total ≤ offset q) × (step (next (some total)) q ≡ q)
unfolding step offset
pick-past_end v total p h = (h, ground (arith, h))
