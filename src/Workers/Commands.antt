-- ===== src/Workers/Commands.antt =====
-- Which commands the table of workers sends.
use industry_dashboard.Base.{
  ◌≡◌, refl, subst, inl, inr, Bool, true, false, ◌&&◌, List, [], ◌∷◌, ◌++◌, All, any, any-append,
  any_snoc, any_last, Option, none, some, Codes, codes_eq, ◌==◌, ==_refl, Bool-cases, append_assoc,
}
use industry_dashboard.Workers.Table
use industry_dashboard.Workers.Table.{
  Order, Dialog, Command, Table, Event, order_name, initial, is_online, handle_confirm, step, run,
}

-- an event that clicks the button for a command of a worker that is online
abbrev pub is_click : Codes → Codes → Event → Bool
is_click id name (Table.click w c) = is_online w && w.id == id && order_name c == name
is_click id name _ = false

-- a command of a worker that was clicked in the events, or nothing
abbrev pub IsClicked : List Event → Option Command → Type 0
IsClicked es none = Unit
IsClicked es (some c) = any (is_click c.worker_id c.command) es ≡ true

-- the dialog asks for a command that was clicked
abbrev IsAsked : List Event → Option Dialog → Type 0
IsAsked es none = Unit
IsAsked es (some d) = any (is_click d.worker_id (order_name d.order)) es ≡ true

IsAsked-snoc :
    (es : List Event) (e : Event) (d : Option Dialog) → IsAsked es d → IsAsked (es ++ e ∷ []) d
IsAsked-snoc es e none h = tt
IsAsked-snoc es e (some d) h = any_snoc (is_click d.worker_id (order_name d.order)) es e h

handle_confirm-IsClicked :
    (es : List Event) (d : Option Dialog) (t : Table)
    → IsAsked es d
    → IsAsked es t.dialog
    → IsAsked es (handle_confirm d t).0.dialog × IsClicked es (handle_confirm d t).1
unfolding handle_confirm
handle_confirm-IsClicked es none t a h = (h, tt)
handle_confirm-IsClicked es (some d) t a h = elim (Bool-cases t.pending) [
  | inl busy ↦ rw busy (h, tt)
  | inr free ↦ rw free (h, a)
]

step-IsClicked :
    (es : List Event) (e : Event) (t : Table)
    → IsAsked es t.dialog
    → IsAsked (es ++ e ∷ []) (step e t).0.dialog × IsClicked (es ++ e ∷ []) (step e t).1
unfolding step
step-IsClicked es (Table.toggle id) t h = (IsAsked-snoc es _ t.dialog h, tt)
step-IsClicked es (Table.click w c) t h = elim (Bool-cases (is_online w)) [
  | inl online ↦ rw online (
    any_last (is_click w.id (order_name c)) es (Table.click w c)
        (rw (online, ==_refl w.id, ==_refl (order_name c)) refl),
    tt,
  )
  | inr offline ↦ rw offline (IsAsked-snoc es _ t.dialog h, tt)
]
step-IsClicked es Table.confirm t h =
    handle_confirm-IsClicked (es ++ Table.confirm ∷ []) t.dialog t (IsAsked-snoc es _ t.dialog h)
      (IsAsked-snoc es _ t.dialog h)
step-IsClicked es Table.settled t h = (tt, tt)
step-IsClicked es Table.close t h = (tt, tt)

IsClicked-append :
    (es fs : List Event) (a : Option Command) → IsClicked es a → IsClicked (es ++ fs) a
IsClicked-append es fs none h = tt
IsClicked-append es fs (some c) h = rw (any-append (is_click c.worker_id c.command) es fs, h) refl

run-after :
    (es fs : List Event) (t : Table) → IsAsked es t.dialog → All (IsClicked (es ++ fs)) (run fs t).1
unfolding run
run-after es [] t h = tt
run-after es (e ∷ fs) t h =
    let (asked, sent) = step-IsClicked es e t h in
    let same : (es ++ e ∷ []) ++ fs ≡ es ++ e ∷ fs = append_assoc es (e ∷ []) fs in
    (
      subst (λ l. IsClicked l (step e t).1) same
          (IsClicked-append (es ++ e ∷ []) fs (step e t).1 sent),
      subst (λ l. All (IsClicked l) (run fs (step e t).0).1) same
          (run-after (es ++ e ∷ []) fs (step e t).0 asked),
    )

-- Every command that the table of workers sends was clicked before or during the run, at the button for that
-- command of a worker that was online.
pub run-IsClicked : (es : List Event) → All (IsClicked es) (run es initial).1
run-IsClicked es = run-after [] es initial tt
