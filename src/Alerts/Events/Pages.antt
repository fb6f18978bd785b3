-- ===== src/Alerts/Events/Pages.antt =====
-- The paging of the events.
use industry_dashboard.Base.{
  ℕ, ◌+◌, ◌-◌, ◌*◌, ◌/◌, ◌≤◌, ◌<◌, ◌≡◌, ◌⊎◌, inl, inr, String, List, [], ◌∷◌, arith, string_eq,
  nat_eq, leb, Bool-cases, All,
}
use industry_dashboard.Alerts.Events.{
  Page, page_size, Event, pick_severity, pick_status, pick_line, pick_machine, clear_line, sort,
  prev, next, offset, total_pages, step, initial, handle_sort,
}

total_pages-bounds :
    (total : ℕ)
    → (1 ≤ total_pages total)
      × ((total_pages total - 1) * 20 ≤ total)
      × (0 < total → (total_pages total - 1) * 20 < total)
unfolding total_pages
total_pages-bounds total = omega arith

-- Every counted event stands on one page and on no other: for an index below the total there is a page
-- below the number of pages whose window holds it, and any page whose window holds it is that page.
pub total_pages-cover :
    (total i : ℕ)
    → i < total
    → (p : ℕ) × (p < total_pages total)
      × (p * page_size ≤ i)
      × (i < p * page_size + page_size)
      × ((q : ℕ) → q * page_size ≤ i → i < q * page_size + page_size → q ≡ p)
unfolding total_pages
total_pages-cover total i h =
    (i / 20, omega arith, omega arith, omega arith, λ q lo hi. omega arith)

-- the total that an event reads
abbrev pub Reads : ℕ → Event → Type 0
Reads total (prev n) = n ≡ total
Reads total (next n) = n ≡ total
Reads total _ = Unit

step-page-lt :
    (total : ℕ) (e : Event) (p : Page)
    → Reads total e
    → p.page < total_pages total
    → (step e p).page < total_pages total
unfolding step handle_sort
step-page-lt total (pick_severity v) p r h = omega (arith, total_pages-bounds total)
step-page-lt total (pick_status v) p r h = omega (arith, total_pages-bounds total)
step-page-lt total (pick_line v) p r h = omega (arith, total_pages-bounds total)
step-page-lt total (pick_machine v) p r h = omega (arith, total_pages-bounds total)
step-page-lt total clear_line p r h = h
step-page-lt total (sort col) p r h = ground (arith, total_pages-bounds total)
step-page-lt total (prev n) p r h = ground arith
step-page-lt total (next n) p r h = ground arith

unfoldable pub run : List Event → Page → Page
run [] p = p
run (e ∷ es) p = run es (step e p)

run-page-lt :
    (total : ℕ) (es : List Event) (p : Page)
    → All (Reads total) es
    → p.page < total_pages total
    → (run es p).page < total_pages total
unfolding run
run-page-lt total [] p r h = h
run-page-lt total (e ∷ es) p r h =
    run-page-lt total es (step e p) r.1 (step-page-lt total e p r.0 h)

-- While the count of events stays the same, no use of the filters, the sorting and the paging buttons
-- asks for a window past the last event: the offset is below the count, or 0 where there is no event.
pub run-offset-lt :
    (total : ℕ) (line_id : String) (es : List Event)
    → All (Reads total) es
    → (offset (run es (initial line_id)) < total) ⊎ (offset (run es (initial line_id)) ≡ 0)
unfolding offset
run-offset-lt total line_id es r =
    let bounds = total_pages-bounds total in
    let below = run-page-lt total es (initial line_id) r (omega arith) in
    elim (Bool-cases (leb 1 total)) [
      | inl some_event ↦ inl (ground arith)
      | inr no_event ↦ inr (ground arith)
    ]
