-- ===== src/Overview/Tests.antt =====
-- The overview on a line of four machines.
use industry_dashboard.Base.{◌≡◌, refl, List, [], ◌∷◌, some, Codes, codes}
use industry_dashboard.Overview.{status_row, alert_row}

abbrev statuses : List Codes
statuses = codes "running" ∷ codes "error" ∷ codes "running" ∷ codes "unknown" ∷ []

row_test : status_row (some statuses) ≡ ("dashboard.running", 2) ∷ ("dashboard.error", 1) ∷ []
unfolding status_row
row_test = refl

alert_test :
    alert_row 600000 (record {
      severity = codes "unheard";
      machine_name = codes "Press";
      alert_name = codes "Hot";
      triggered_at = 0;
    })
    ≡ record { label = "INFO"; text = codes "Press — Hot"; age = codes "10 min ago" }
unfolding alert_row
alert_test = refl
