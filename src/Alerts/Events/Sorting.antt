-- ===== src/Alerts/Events/Sorting.antt =====
-- Sorting, filters and the state of an event.
use industry_dashboard.Base.{
  ◌≡◌, ◌≢◌, ◌↔◌, refl, true, ◌&&◌, String, List, filter, length, arith, ◌==◌, ==_iff, ==_refl,
  string_eq, nat_eq, if◌then◌else◌,
}
use industry_dashboard.Alerts.Events.{
  Page, asc, desc, flip, handle_sort, sort_icon, none_icon, AlertEvent, open_status, status_of,
  can_acknowledge, unresolved_info_count,
}

-- Sorting by a column shows the arrow at that column and at no other, and goes to the first page; the
-- first click on a column sorts events by time from the newest, and by any other column upwards; a second
-- click turns the order round, and a third one restores it.
pub handle_sort_lem :
    (col other : String) (p : Page)
    → col ≢ other
    → let q = handle_sort col p in
      (q.page ≡ 0)
      × (sort_icon col q ≢ none_icon)
      × (sort_icon other q ≡ none_icon)
      × (p.sort_by ≢ col → q.sort_order ≡ (if col == "triggered_at" then desc else asc))
      × ((handle_sort col q).sort_order ≡ flip q.sort_order)
      × (handle_sort col (handle_sort col q) ≡ q)
unfolding handle_sort sort_icon
handle_sort_lem col other p differ =
    ground (arith, ==_iff p.sort_by col, ==_iff col other, ==_refl col, ==_iff p.sort_by other)

-- A row has the button that acknowledges it exactly if its badge says that it is open, and the count on
-- the button that acknowledges all is the number of the rows with severity info and that badge.
can_acknowledge_iff :
    (e : AlertEvent) (events : List AlertEvent)
    → ((can_acknowledge e ≡ true) ↔ (status_of e ≡ open_status))
      × (unresolved_info_count events
          ≡ length (filter (λ r. r.severity == "info" && can_acknowledge r) events))
unfolding can_acknowledge status_of unresolved_info_count
can_acknowledge_iff e events = (ground arith, refl)
