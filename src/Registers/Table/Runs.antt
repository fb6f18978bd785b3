-- ===== src/Registers/Table/Runs.antt =====
-- Runs of the table: renders between edits, a save and its refetched registers, a second import.
use industry_dashboard.Base.{
  ◌≡◌, ◌≢◌, refl, ◌∙◌, sym, any, append-nil, no_elements, Bool, true, false, not, List, [], ◌∷◌,
  ◌++◌, length, filter, All, Option, none, some, Codes, ◌==◌, Eq, nat_eq, codes_eq, arith, ==_iff,
  Bool-cases, inl, inr,
}
use industry_dashboard.Registers.{Row}
use industry_dashboard.Registers.Import.{
  replace, append, Json, press_import, Call, on_import, on_close, dialog_step,
}
use industry_dashboard.Registers.Table.{
  Table, Event, render, add, delete, edit, copy, open_csv, in_dialog, save, clear_status, sync,
  handle_import, on_call, step, run,
}

abbrev pub is_render : {N : Type 0} → Event N → Bool
is_render (render _) = true
is_render _ = false

-- Every render of the run has these registers.
abbrev RendersOnly : {N : Type 0} → List (Row N) → Event N → Type 0
RendersOnly regs (render data_) = data_ ≡ some regs
RendersOnly regs _ = Unit

module _ {N : Type 0} ⦃e : Eq N⦄ (zero_n one hundred : N) (parse_int parse_float : Codes → Option N)
    (parse_json : Codes → Json N) (stringify : List (Row N) → Codes) where
  abbrev go : Event N → Table N → Table N
  go = step zero_n one hundred parse_int parse_float parse_json stringify

  abbrev go_all : List (Event N) → Table N → Table N
  go_all = run zero_n one hundred parse_int parse_float parse_json stringify

  data_key-on_call :
      (c : Option (Call N)) (t : Table N)
      → (on_call zero_n one hundred parse_int parse_float parse_json stringify c t).data_key
        ≡ t.data_key
  unfolding handle_import
  data_key-on_call none t = refl
  data_key-on_call (some (on_import regs replace)) t = refl
  data_key-on_call (some (on_import regs append)) t = refl
  data_key-on_call (some on_close) t = refl

  -- Only a render changes the key.
  data_key-step :
      (ev : Event N) (t : Table N) → is_render ev ≡ false → (go ev t).data_key ≡ t.data_key
  unfolding step
  data_key-step (render data_) t h = absurd cc
  data_key-step add t h = refl
  data_key-step (delete index) t h = refl
  data_key-step (edit index c) t h = refl
  data_key-step (copy none) t h = refl
  data_key-step (copy (some regs)) t h = ground arith
  data_key-step open_csv t h = refl
  data_key-step (in_dialog event) t h =
      let out = dialog_step zero_n one parse_float parse_json event t.dialog in
      ground (arith, data_key-on_call out.1 (record t { dialog = out.0 }))
  data_key-step (save none) t h = refl
  data_key-step (save (some m)) t h = refl
  data_key-step clear_status t h = refl

  data_key-run :
      (es : List (Event N)) (t : Table N)
      → any is_render es ≡ false
      → (go_all es t).data_key ≡ t.data_key
  unfolding run
  data_key-run [] t h = refl
  data_key-run (ev ∷ es) t h =
      data_key-run es (go ev t) (ground arith) ∙ data_key-step ev t (ground arith)

  run-append :
      (es fs : List (Event N)) (t : Table N) → go_all (es ++ fs) t ≡ go_all fs (go_all es t)
  unfolding run
  run-append [] fs t = refl
  run-append (ev ∷ es) fs t = run-append es fs (go ev t)

  step_render :
      (regs : List (Row N)) (ev : Event N) (t : Table N)
      → is_render ev ≡ true
      → RendersOnly regs ev
      → stringify regs ≡ t.data_key
      → go ev t ≡ t
  unfolding step sync
  step_render regs (render data_) t h only key =
      rw only (ground (arith, ==_iff (stringify regs) t.data_key))
  step_render regs add t h only key = absurd cc
  step_render regs (delete index) t h only key = absurd cc
  step_render regs (edit index c) t h only key = absurd cc
  step_render regs (copy _) t h only key = absurd cc
  step_render regs open_csv t h only key = absurd cc
  step_render regs (in_dialog event) t h only key = absurd cc
  step_render regs (save _) t h only key = absurd cc
  step_render regs clear_status t h only key = absurd cc

  filter-renders :
      (regs : List (Row N)) (es : List (Event N)) (t : Table N)
      → stringify regs ≡ t.data_key
      → All (RendersOnly regs) es
      → run zero_n one hundred parse_int parse_float parse_json stringify es t
        ≡ run zero_n one hundred parse_int parse_float parse_json stringify
            (filter (λ ev. not (is_render ev)) es)
            t
  unfolding run
  filter-renders regs [] t key only = refl
  filter-renders regs (ev ∷ es) t key only = elim (Bool-cases (is_render ev)) [
    | inl yes_ ↦
        rw (yes_, step_render regs ev t yes_ only.0 key) (filter-renders regs es t key only.1)
    | inr no_ ↦
        rw no_ (filter-renders regs es (go ev t) (key ∙ sym (data_key-step ev t no_)) only.1)
  ]

  -- A render leaves the table with the key of its registers.
  data_key-render :
      (regs : List (Row N)) (t : Table N) → stringify regs ≡ (go (render (some regs)) t).data_key
  unfolding step sync
  data_key-render regs t = elim (Bool-cases (stringify regs == t.data_key)) [
    | inl same ↦ rw same ((==_iff (stringify regs) t.data_key).0 same)
    | inr new ↦ rw new refl
  ]

  -- From any table, the first render with some registers and then a run in which every render has those
  -- registers ends as the run without the later renders does: what the user did is not lost.
  pub run-renders :
      (regs : List (Row N)) (es : List (Event N)) (t : Table N)
      → All (RendersOnly regs) es
      → run zero_n one hundred parse_int parse_float parse_json stringify
          (render (some regs) ∷ es)
          t
        ≡ run zero_n one hundred parse_int parse_float parse_json stringify
            (render (some regs) ∷ filter (λ ev. not (is_render ev)) es)
            t
  unfolding run
  run-renders regs es t only =
      filter-renders regs es (go (render (some regs)) t) (data_key-render regs t) only

  -- Rows are saved that are not those of the table's key; the server keeps them and they are
  -- fetched again. Whatever the user does to the rows before they come back, with no other render
  -- between, the table then holds the saved rows: the edits in between are lost.
  pub run-save :
      (es : List (Event N)) (t : Table N)
      → stringify t.rows ≢ t.data_key
      → any is_render es ≡ false
      → (run zero_n one hundred parse_int parse_float parse_json stringify
          (save none ∷ es ++ render (some t.rows) ∷ [])
          t).rows
        ≡ t.rows
  unfolding run step sync
  run-save es t new quiet =
      let u = go_all es (go (save none) t) in
      ground (
        arith,
        run-append es (render (some t.rows) ∷ []) (go (save none) t),
        data_key-run es (go (save none) t) quiet,
        ==_iff (stringify t.rows) u.data_key,
      )

  -- An import from the open dialog, then the dialog opened again and the button pressed with no
  -- other file chosen: the parsed rows are added twice in the mode `append`.
  pub run-import_again :
      (t : Table N)
      → t.csv_open ≡ true
      → t.dialog.mode ≡ append
      → (run zero_n one hundred parse_int parse_float parse_json stringify
          (in_dialog press_import ∷ open_csv ∷ in_dialog press_import ∷ [])
          t).rows
        ≡ (t.rows ++ t.dialog.parsed) ++ t.dialog.parsed
  unfolding run step dialog_step on_call handle_import
  run-import_again t open_ mode_ = elim (Bool-cases (length t.dialog.parsed == 0)) [
    | inl none_ ↦ rw (open_, no_elements t.dialog.parsed none_) (ground (arith, append-nil t.rows))
    | inr some_ ↦ rw (open_, some_, mode_) (ground (arith, some_, mode_))
  ]
