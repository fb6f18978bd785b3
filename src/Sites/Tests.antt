-- ===== src/Sites/Tests.antt =====
-- The administration of sites on a site with one line.
use industry_dashboard.Base.{
  ◌≡◌, refl, true, false, List, [], ◌∷◌, All, none, some, Codes, codes, negsuc,
}
use industry_dashboard.Hooks.Mutations
use industry_dashboard.Sites.{Machine, Line, Site, done, read_answer}
use industry_dashboard.Sites.Forms
use industry_dashboard.Sites.Forms.{
  EditLine, LineForm, line_fields, fill_line, submit_line, submit_site,
}
use industry_dashboard.Sites.Forms.Sent.{IsLost, submit_line-fill_line}
use industry_dashboard.Sites.Panel
use industry_dashboard.Sites.Panel.{Event, initial, run}
use industry_dashboard.Sites.Panel.Sent.{run-IsLost}
use industry_dashboard.Sites.View
use industry_dashboard.Sites.View.{LineCard, MachineRow, render}

abbrev upper : Codes → Codes
upper s = s

abbrev press_machine : Machine
press_machine = record {
  id = codes "m1";
  name = codes "Press";
  model = none;
  status = some (codes "running");
  worker_name = none;
}

abbrev hall : Line
hall = record {
  id = codes "l1";
  name = codes "Hall";
  display_order = negsuc 1;
  machines = some (press_machine ∷ []);
}

abbrev works : Site
works = record {
  id = codes "s1";
  name = codes "Works";
  code = codes "W";
  timezone = codes "UTC";
  address = [];
}

abbrev edit_and_delete : List Event
edit_and_delete =
    Panel.press_edit_site
    ∷ Panel.type_in_site (Forms.type_name (codes "New"))
    ∷ Panel.type_in_site (Forms.type_code (codes "N"))
    ∷ Panel.save_site done
    ∷ Panel.press_delete_site
    ∷ Panel.confirm_delete done
    ∷ []

lost_test :
    (run upper (codes "s1") (read_answer works (hall ∷ [])) edit_and_delete initial).1
    ≡ none ∷ none ∷ none ∷ none ∷ none ∷ some (Mutations.delete_site (codes "undefined")) ∷ []
unfolding run read_answer submit_site Forms.type_site
lost_test = refl

shown_test :
    render false (some (read_answer works (hall ∷ [])))
    ≡ View.panel [] (codes " · ") (
        record {
          key = codes "l1";
          name = codes "Hall";
          display_order = negsuc 1;
          rows =
              record {
                key = codes "m1";
                dot = "bg-green-500";
                name = codes "Press";
                model = codes "—";
                status = codes "running";
                worker = codes "admin.noWorkerAssigned";
              }
              ∷ [];
        }
        ∷ [])
unfolding render read_answer
shown_test = refl

run-IsLost_example :
    All IsLost (run upper (codes "s1") (read_answer works (hall ∷ [])) edit_and_delete initial).1
run-IsLost_example = run-IsLost upper (codes "s1") works (hall ∷ []) edit_and_delete

abbrev hall_edit : EditLine
hall_edit = record { id = codes "l1"; name = codes "Hall"; display_order = negsuc 1 }

abbrev empty_form : LineForm
empty_form = record { name = []; display_order = [] }

submit_line-fill_line_example :
    submit_line (codes "s1") (some hall_edit) done (fill_line true (some hall_edit) empty_form)
    ≡ record {
      sent = some (Mutations.update_line (codes "l1") (line_fields (codes "Hall") (negsuc 1)));
      form = fill_line true (some hall_edit) empty_form;
      closed = true;
    }
submit_line-fill_line_example = submit_line-fill_line (codes "s1") hall_edit done empty_form refl
