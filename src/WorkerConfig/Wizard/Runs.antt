-- ===== src/WorkerConfig/Wizard/Runs.antt =====
-- Runs of the wizard: what it sends, and the order of its steps.
use industry_dashboard.Base.{
  ◌≡◌, ◌≢◌, refl, sym, ap, subst, Bool, true, false, String, List, [], ◌∷◌, map, length, All,
  Distinct, Option, none, some, Codes, trim, ◌==◌, nat_eq, string_eq, ℤ, arith, ==_iff,
  if◌then◌else◌,
}
use industry_dashboard.WorkerConfig.Validation.Accepted.{IsInterval, is_valid_poll_interval_iff}
use industry_dashboard.WorkerConfig.State.{
  SelectedMachine, Config, Page, StepKey, basic, machines, registers, deploy, Command,
  create_config, update_config, set_machines, Answer, resolved, rejected, Event, loaded, type_name,
  pick_site, type_interval, save_basic, save_machines, check, type_host, type_port, type_slave_id,
  expand, click_step, next, back,
}
use industry_dashboard.WorkerConfig.Wizard.{
  connection_of, prefill, is_basic_complete, is_machines_complete, update_machine,
  handle_save_basic, handle_save_machines, on_basic, on_machines, on_registers, on_screen, step,
  run,
}
use industry_dashboard.WorkerConfig.Wizard.Machines.{
  machine_ids, Distinct-toggle_machine, machine_ids-update_machine,
}

-- A name, a site, and an interval that is accepted.
abbrev IsBasic : String → String → Codes → Type 0
IsBasic name site_id poll_interval = (name ≢ "") × (site_id ≢ "") × IsInterval (trim poll_interval)

-- What a mutation of the wizard is about.
abbrev pub IsSent : Option String → Option Command → Type 0
IsSent id none = Unit
IsSent id (some (create_config name site_id v)) = (id ≡ none) × IsBasic name site_id v
IsSent id (some (update_config c name site_id v)) = (id ≡ some c) × IsBasic name site_id v
IsSent id (some (set_machines c connections)) =
    (id ≡ some c) × (connections ≢ []) × Distinct (map (λ k. k.machine_id) connections)

-- No machine is selected twice, and a new configuration shows the first step.
abbrev pub IsPage : Option String → Page → Type 0
IsPage id p = Distinct (machine_ids p.selected_machines) × (id ≡ none → p.active_step ≡ basic)

-- The server gives a configuration no machine twice.
abbrev IsLoaded : Event → Type 0
IsLoaded (loaded c) = (ms : List SelectedMachine) → c.machines ≡ some ms → Distinct (machine_ids ms)
IsLoaded _ = Unit

abbrev IsStep : Option String → Page × Option Command → Type 0
IsStep id out = IsPage id out.0 × IsSent id out.1

is_basic_complete-IsBasic :
    (p : Page) → is_basic_complete p ≡ true → IsBasic p.name p.site_id p.poll_interval
unfolding is_basic_complete
is_basic_complete-IsBasic p h = (
  λ e. ground (arith, h, e, ==_iff p.name ""),
  λ e. ground (arith, h, e, ==_iff p.site_id ""),
  (is_valid_poll_interval_iff p.poll_interval).0 (ground (arith, h)),
)

save_basic-IsStep :
    (id : Option String) (answer : Answer) (p : Page)
    → IsPage id p
    → is_basic_complete p ≡ true
    → IsStep id (handle_save_basic id answer p)
unfolding handle_save_basic
save_basic-IsStep none (resolved c) p i h = (i, (refl, is_basic_complete-IsBasic p h))
save_basic-IsStep none (rejected m) p i h = (i, (refl, is_basic_complete-IsBasic p h))
save_basic-IsStep (some id) (resolved c) p i h = (i, (refl, is_basic_complete-IsBasic p h))
save_basic-IsStep (some id) (rejected m) p i h = (i, (refl, is_basic_complete-IsBasic p h))

ids-connection_of :
    (ms : List SelectedMachine) → map (λ k. k.machine_id) (map connection_of ms) ≡ machine_ids ms
ids-connection_of [] = refl
ids-connection_of (m ∷ ms) = ap (λ l. m.machine_id ∷ l) (ids-connection_of ms)

map_ne_nil : (ms : List SelectedMachine) → (length ms == 0) ≡ false → map connection_of ms ≢ []
map_ne_nil [] h = absurd cc
map_ne_nil (m ∷ ms) h = λ e. cc

set_machines-IsSent :
    (id : String) (p : Page)
    → Distinct (machine_ids p.selected_machines)
    → is_machines_complete p ≡ true
    → IsSent (some id) (some (set_machines id (map connection_of p.selected_machines)))
set_machines-IsSent id p d h = (
  refl,
  map_ne_nil p.selected_machines (ground (arith, h)),
  subst Distinct (sym (ids-connection_of p.selected_machines)) d,
)

save_machines-IsStep :
    (id : Option String) (answer : Answer) (p : Page)
    → IsPage id p
    → is_machines_complete p ≡ true
    → IsStep id (handle_save_machines id answer p)
unfolding handle_save_machines
save_machines-IsStep none answer p i h = (i, tt)
save_machines-IsStep (some id) (resolved c) p i h = (i, set_machines-IsSent id p i.0 h)
save_machines-IsStep (some id) (rejected m) p i h = (i, set_machines-IsSent id p i.0 h)

-- A step that is taken only where a test holds.
if-IsStep :
    (id : Option String) (b : Bool) (out : Page × Option Command) (p : Page)
    → IsPage id p
    → (b ≡ true → IsStep id out)
    → IsStep id (if b then out else (p, none))
if-IsStep id true out p i h = h refl
if-IsStep id false out p i h = (i, tt)

if_page-IsStep :
    (id : String) (b : Bool) (q r : Page)
    → Distinct (machine_ids q.selected_machines)
    → Distinct (machine_ids r.selected_machines)
    → IsStep (some id) (if b then q else r, none)
if_page-IsStep id true q r d d' = ((d, λ e. absurd cc), tt)
if_page-IsStep id false q r d d' = ((d', λ e. absurd cc), tt)

prefill-Distinct :
    (c : Config) (p : Page)
    → IsLoaded (loaded c)
    → Distinct (machine_ids p.selected_machines)
    → Distinct (machine_ids (prefill c p).selected_machines)
unfolding prefill
prefill-Distinct c p l d = by_machines c.machines refl
  where
    by_machines :
        (ms : Option (List SelectedMachine))
        → c.machines ≡ ms
        → Distinct (machine_ids (elim ms [ none ↦ p.selected_machines | some ns ↦ ns ]))
    by_machines none h = d
    by_machines (some ns) h = l ns h

module _ (parse_int : Codes → Option ℤ) where
  basic-IsStep :
      (id : Option String) (e : Event) (p : Page)
      → IsPage id p
      → IsStep id (on_basic parse_int id e p)
  unfolding on_basic
  basic-IsStep id (type_name v) p i = (i, tt)
  basic-IsStep id (pick_site v) p i = (i, tt)
  basic-IsStep id (type_interval v) p i = (i, tt)
  basic-IsStep id (save_basic answer) p i =
      if-IsStep id (is_basic_complete p) (handle_save_basic id answer p) p i
        (save_basic-IsStep id answer p i)
  basic-IsStep none next p i = (i, tt)
  basic-IsStep (some id) next p i =
      if_page-IsStep id (is_basic_complete p) (record p { active_step = machines }) p i.0 i.0
  basic-IsStep id _ p i = (i, tt)

  update-IsStep :
      (id : String) (m : String) (f : SelectedMachine → SelectedMachine) (p : Page)
      → ((s : SelectedMachine) → (f s).machine_id ≡ s.machine_id)
      → IsPage (some id) p
      → IsStep (some id) (update_machine m f p, none)
  update-IsStep id m f p keeps i =
      ((subst Distinct (sym (machine_ids-update_machine m f p keeps)) i.0, λ e. absurd cc), tt)

  machines-IsStep :
      (id : String) (e : Event) (p : Page)
      → IsPage (some id) p
      → IsStep (some id) (on_machines parse_int (some id) e p)
  unfolding on_machines
  machines-IsStep id (save_machines answer) p i =
      if-IsStep (some id) (is_machines_complete p) _ p i (save_machines-IsStep (some id) answer p i)
  machines-IsStep id (check m line_name) p i =
      ((Distinct-toggle_machine m line_name p i.0, λ e. absurd cc), tt)
  machines-IsStep id (type_host m v) p i = update-IsStep id m _ p (λ s. refl) i
  machines-IsStep id (type_port m v) p i = update-IsStep id m _ p (λ s. refl) i
  machines-IsStep id (type_slave_id m v) p i = update-IsStep id m _ p (λ s. refl) i
  machines-IsStep id next p i =
      if_page-IsStep id (is_machines_complete p) (record p { active_step = registers }) p i.0 i.0
  machines-IsStep id _ p i = (i, tt)

  registers-IsStep :
      (id : String) (e : Event) (p : Page)
      → IsPage (some id) p
      → IsStep (some id) (on_registers parse_int e p)
  unfolding on_registers
  registers-IsStep id (expand m) p i = ((i.0, λ e. absurd cc), tt)
  registers-IsStep id next p i =
      if_page-IsStep id (is_machines_complete p) (record p { active_step = deploy }) p i.0 i.0
  registers-IsStep id back p i =
      if_page-IsStep id (is_machines_complete p) p (record p { active_step = machines }) i.0 i.0
  registers-IsStep id _ p i = (i, tt)

  screen-IsStep :
      (id : Option String) (key : StepKey) (e : Event) (p : Page)
      → IsPage id p
      → IsStep id (on_screen parse_int id key e p)
  unfolding on_screen
  screen-IsStep id basic e p i = basic-IsStep id e p i
  screen-IsStep (some id) machines e p i = machines-IsStep id e p i
  screen-IsStep (some id) registers e p i = registers-IsStep id e p i
  screen-IsStep (some id) deploy e p i = (i, tt)
  screen-IsStep none machines e p i = (i, tt)
  screen-IsStep none registers e p i = (i, tt)
  screen-IsStep none deploy e p i = (i, tt)

  step-IsStep :
      (id : Option String) (e : Event) (p : Page)
      → IsLoaded e
      → IsPage id p
      → IsStep id (step parse_int id e p)
  unfolding step prefill
  step-IsStep none (loaded c) p l i = (i, tt)
  step-IsStep (some id) (loaded c) p l i = ((prefill-Distinct c p l i.0, λ e. absurd cc), tt)
  step-IsStep none (click_step basic) p l i = ((i.0, λ e. refl), tt)
  step-IsStep none (click_step machines) p l i = (i, tt)
  step-IsStep none (click_step registers) p l i = (i, tt)
  step-IsStep none (click_step deploy) p l i = (i, tt)
  step-IsStep (some id) (click_step key) p l i = ((i.0, λ e. absurd cc), tt)
  step-IsStep id e p l i = screen-IsStep id p.active_step e p i

  -- However the wizard is used, from a page on which no machine is selected twice and, for a new
  -- configuration, the first step is shown, where every configuration that is loaded names no machine
  -- twice: every mutation that is sent creates a configuration if it is new and changes that
  -- configuration otherwise, with a name, a site and a polling interval that is digits and a unit but for
  -- white space at its ends, which is sent, too, or with one machine or more, none of them twice; and the page at the end is again such a page.
  pub run-IsSent :
      (id : Option String) (es : List Event) (p : Page)
      → All IsLoaded es
      → IsPage id p
      → IsPage id (run parse_int id es p).0 × All (IsSent id) (run parse_int id es p).1
  unfolding run
  run-IsSent id [] p l i = (i, tt)
  run-IsSent id (e ∷ es) p l i =
      let (i', c) = step-IsStep id e p l.0 i in
      let (i'', cs) = run-IsSent id es (step parse_int id e p).0 l.1 i' in (i'', (c, cs))
