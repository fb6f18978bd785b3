-- ===== src/WorkerConfig/Wizard/Machines.antt =====
-- The selection of machines.
use industry_dashboard.Base.{
  ℕ, ◌≡◌, ◌≢◌, ◌≤◌, ◌↔◌, refl, ap, ◌∙◌, true, false, not, String, List, [], ◌∷◌, ◌++◌, map, filter,
  length, All, Distinct, Distinct-snoc, Distinct-remove, includes, remove, ◌==◌, nat_eq, string_eq,
  ℤ, pos, negsuc, is_between, arith, some_elements_iff, if◌then◌else◌, Bool-cases, inl, inr,
}
use industry_dashboard.WorkerConfig.Validation.{is_valid_port, is_valid_slave_id}
use industry_dashboard.WorkerConfig.Validation.Accepted.{IsHostName, is_valid_host_iff}
use industry_dashboard.WorkerConfig.State.{
  SelectedMachine, Machine, Page, machines, complete, step_eq,
}
use industry_dashboard.WorkerConfig.Wizard.{
  has_bad_conn, is_machines_valid, get_step_status, is_machine_selected, selection_of,
  toggle_machine, update_machine,
}

abbrev pub machine_ids : List SelectedMachine → List String
machine_ids ms = map (λ m. m.machine_id) ms

includes-machine_ids :
    (id : String) (ms : List SelectedMachine)
    → includes id (machine_ids ms) ≡ is_machine_selected id ms
includes-machine_ids id [] = refl
includes-machine_ids id (m ∷ ms) = rw (includes-machine_ids id ms) refl

machine_ids-filter :
    (id : String) (ms : List SelectedMachine)
    → machine_ids (filter (λ m. not (m.machine_id == id)) ms) ≡ remove id (machine_ids ms)
machine_ids-filter id [] = refl
machine_ids-filter id (m ∷ ms) = ground (arith, machine_ids-filter id ms)

machine_ids-append :
    (ms ns : List SelectedMachine) → machine_ids (ms ++ ns) ≡ machine_ids ms ++ machine_ids ns
machine_ids-append [] ns = refl
machine_ids-append (m ∷ ms) ns = ap (λ l. m.machine_id ∷ l) (machine_ids-append ms ns)

pub Distinct-toggle_machine :
    (m : Machine) (line_name : String) (p : Page)
    → Distinct (machine_ids p.selected_machines)
    → Distinct (machine_ids (toggle_machine m line_name p).selected_machines)
unfolding toggle_machine
Distinct-toggle_machine m line_name p d =
    elim (Bool-cases (is_machine_selected m.id p.selected_machines)) [
      | inl in_ ↦
          rw (in_, machine_ids-filter m.id p.selected_machines)
            (Distinct-remove m.id (machine_ids p.selected_machines) d)
      | inr out ↦
          rw (out, machine_ids-append p.selected_machines (selection_of m line_name ∷ []))
            (Distinct-snoc m.id (machine_ids p.selected_machines)
              (includes-machine_ids m.id p.selected_machines ∙ out) d)
    ]

pub machine_ids-update_machine :
    (id : String) (f : SelectedMachine → SelectedMachine) (p : Page)
    → ((m : SelectedMachine) → (f m).machine_id ≡ m.machine_id)
    → machine_ids (update_machine id f p).selected_machines ≡ machine_ids p.selected_machines
unfolding update_machine
machine_ids-update_machine id f p keeps = go p.selected_machines
  where
    go :
        (ms : List SelectedMachine)
        → machine_ids (map (λ m. if m.machine_id == id then f m else m) ms) ≡ machine_ids ms
    go [] = refl
    go (m ∷ ms) = ground (arith, go ms, keeps m)

-- A connection that can be used: the host is a name, the port and the slave id are in their ranges.
abbrev pub IsConnection : SelectedMachine → Type 0
IsConnection m =
    IsHostName m.host
    × (n : ℕ) × (m.port ≡ pos n)
    × (1 ≤ n)
    × (n ≤ 65535)
    × (k : ℕ) × (m.slave_id ≡ pos k)
    × (1 ≤ k)
    × (k ≤ 247)

between_iff :
    (lo hi : ℕ) (v : ℤ)
    → (is_between lo hi v ≡ true) ↔ ((n : ℕ) × (v ≡ pos n) × (lo ≤ n) × (n ≤ hi))
unfolding is_between
between_iff lo hi (pos n) = (
  λ h. (n, refl, ground arith, ground arith),
  λ (k, e, a, b). let e' : n ≡ k = cc in ground (arith, e', a, b),
)
between_iff lo hi (negsuc n) = (λ h. absurd cc, λ (k, e, a, b). absurd cc)

good_conn_iff : (m : SelectedMachine) → (has_bad_conn m ≡ false) ↔ IsConnection m
unfolding has_bad_conn is_valid_port is_valid_slave_id
good_conn_iff m = (
  λ h.
      let (n, e, a, b) = (between_iff 1 65535 m.port).0 (ground (arith, h)) in
      let (k, f, c, d) = (between_iff 1 247 m.slave_id).0 (ground (arith, h)) in
      ((is_valid_host_iff m.host).0 (ground (arith, h)), n, e, a, b, k, f, c, d),
  λ (host, n, e, a, b, k, f, c, d). ground (
    arith,
    (is_valid_host_iff m.host).1 host,
    (between_iff 1 65535 m.port).1 (n, e, a, b),
    (between_iff 1 247 m.slave_id).1 (k, f, c, d),
  ),
)

no_bad_iff :
    (ms : List SelectedMachine)
    → ((length (filter has_bad_conn ms) == 0) ≡ true) ↔ All IsConnection ms
no_bad_iff [] = (λ h. tt, λ h. refl)
no_bad_iff (m ∷ ms) = (
  λ h. ((good_conn_iff m).0 (ground (arith, h)), (no_bad_iff ms).0 (ground (arith, h))),
  λ (g, gs). ground (arith, (good_conn_iff m).1 g, (no_bad_iff ms).1 gs),
)

-- The step of the machines is marked complete exactly if it is not the step on the screen, some
-- machine is selected, and every selected machine has a connection that can be used: a host that is
-- a name, a port from 1 to 65535 and a slave id from 1 to 247.
pub get_step_status-machines_iff :
    (p : Page)
    → (get_step_status machines p ≡ complete) ↔ (
        (step_eq machines p.active_step ≡ false)
        × (p.selected_machines ≢ [])
        × All IsConnection p.selected_machines)
unfolding get_step_status is_machines_valid
get_step_status-machines_iff p =
    let bad_iff = no_bad_iff p.selected_machines in
    let some_iff = some_elements_iff p.selected_machines in
    (
      λ h. (ground (arith, h), some_iff.0 (ground (arith, h)), bad_iff.0 (ground (arith, h))),
      λ (other, some_, good). ground (arith, other, some_iff.1 some_, bad_iff.1 good),
    )
