-- ===== src/Registers/Import.antt =====
-- The state and the handlers of `CsvImportDialog`. A file that was chosen is read later: `loaded` is
-- its reader's `onload`. `parse_json` is `JSON.parse`.
use industry_dashboard.Base.{
  Bool, true, false, ◌||◌, List, [], length, take, Option, none, some, Codes, codes, ends_with,
  is_empty, ◌==◌, Eq, nat_eq, if◌then◌else◌,
}
use industry_dashboard.Registers.{Value, text, Row, get, is_falsy}
use industry_dashboard.Registers.Csv.{parse_csv}

pub data Mode : Type 0 where
  replace append : Mode

-- what `JSON.parse` makes of a file: an error with its message, an array of registers, or a value
-- that is no array
pub data Json (N : Type 0) : Type 0 where
  bad : Codes → Json N
  array : List (Row N) → Json N
  other : Json N

pub record Dialog (N : Type 0) : Type 0 where
  pub parsed : List (Row N)
  pub mode : Mode
  pub parse_error : Codes

pub data DialogEvent : Type 0 where
  choose_file : DialogEvent
  loaded : (name text : Codes) → DialogEvent
  pick_mode : Mode → DialogEvent
  press_import close : DialogEvent

-- A reader may finish when the dialog is shut; everything else is done in it.
abbrev pub needs_open : DialogEvent → Bool
needs_open (loaded _ _) = false
needs_open _ = true

-- the calls of `onImport` and `onClose`
pub data Call (N : Type 0) : Type 0 where
  on_import : List (Row N) → Mode → Call N
  on_close : Call N

abbrev pub initial_dialog : {N : Type 0} → Dialog N
initial_dialog = record { parsed = []; mode = replace; parse_error = [] }

-- `err.message || 'Parse error'`
abbrev or_parse_error : Codes → Codes
or_parse_error m = if is_empty m then codes "Parse error" else m

module _ {N : Type 0} ⦃e : Eq N⦄ (zero_n one : N) (parse_float : Codes → Option N)
    (parse_json : Codes → Json N) where
  -- `reader.onload`
  on_load : Codes → Codes → Dialog N → Dialog N
  on_load name s d =
      if ends_with name (codes ".json")
      then elim (parse_json s) [
        | bad m ↦ record d { parse_error = or_parse_error m }
        | array rows ↦ record d { parsed = rows }
        | other ↦ record d { parse_error = codes "JSON must be an array" }
      ]
      else record d { parsed = parse_csv zero_n one parse_float s }

  -- a disabled button does nothing
  unfoldable pub dialog_step : DialogEvent → Dialog N → Dialog N × Option (Call N)
  unfolding on_load
  dialog_step choose_file d = (record d { parse_error = []; parsed = [] }, none)
  dialog_step (loaded name s) d = (on_load name s d, none)
  dialog_step (pick_mode m) d = (if length d.parsed == 0 then d else record d { mode = m }, none)
  dialog_step press_import d =
      (d, if length d.parsed == 0 then none else some (on_import d.parsed d.mode))
  dialog_step close d = (record { parsed = []; parse_error = []; mode = replace }, some on_close)

-- `preview`
abbrev preview : {N : Type 0} → Dialog N → List (Row N)
preview d = take 10 d.parsed

-- `row.address === undefined || row.address === ''`
abbrev is_missing : {N : Type 0} → Option (Value N) → Bool
is_missing none = true
is_missing (some (text s)) = is_empty s
is_missing (some _) = false

module _ {N : Type 0} ⦃e : Eq N⦄ (zero_n : N) where
  -- `isInvalid` of a row of the preview
  unfoldable is_invalid : Row N → Bool
  unfolding get is_falsy
  is_invalid row =
      is_falsy zero_n (get (codes "name") row) || is_missing (get (codes "address") row)
