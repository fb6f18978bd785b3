-- ===== src/Registers/Table.antt =====
-- The state and the handlers of `RegisterTable`, with the import dialog that it holds. A render may
-- set the rows again: `render` is one, with the data of `useMachineRegisters`. The answer of an
-- awaited call is an argument. `stringify` is `JSON.stringify` of registers, `parse_int` is
-- `parseInt`, `none` where it is NaN.
pub mod Edits
pub mod Runs
use industry_dashboard.Base.{
  ℕ, Bool, true, false, not, ◌&&◌, List, [], ◌∷◌, ◌++◌, length, Option, none, some, Codes, codes,
  is_empty, ◌==◌, Eq, nat_eq, codes_eq, remove_at, modify_at, if◌then◌else◌,
}
use industry_dashboard.Registers.{Fake, Value, number, text, fake, null, Row, get, set}
use industry_dashboard.Registers.Csv.{float_or_zero}
use industry_dashboard.Registers.Import.{
  Mode, replace, append, Json, Dialog, DialogEvent, needs_open, Call, on_import, on_close,
  initial_dialog, dialog_step,
}

pub data SaveStatus : Type 0 where
  idle success error : SaveStatus

pub record Table (N : Type 0) : Type 0 where
  pub rows : List (Row N)
  pub data_key : Codes
  pub csv_open : Bool
  pub save_status : SaveStatus
  pub error_msg : Codes
  pub dialog : Dialog N

abbrev pub initial_table : {N : Type 0} → Table N
initial_table = record {
  rows = [];
  data_key = [];
  csv_open = false;
  save_status = idle;
  error_msg = [];
  dialog = initial_dialog;
}

-- the columns of texts and of numbers
pub data TextKey : Type 0 where
  name_key type_key data_type_key unit_key byte_order_key : TextKey

pub data NumberKey : Type 0 where
  address_key scale_key offset_key : NumberKey

abbrev pub text_name : TextKey → Codes
text_name name_key = codes "name"
text_name type_key = codes "type"
text_name data_type_key = codes "data_type"
text_name unit_key = codes "unit"
text_name byte_order_key = codes "byte_order"

abbrev pub number_name : NumberKey → Codes
number_name address_key = codes "address"
number_name scale_key = codes "scale"
number_name offset_key = codes "offset"

-- what the user types into one row
pub data Edit : Type 0 where
  type_text : TextKey → Codes → Edit
  type_number : NumberKey → Codes → Edit
  check_fake : Bool → Edit
  fake_min fake_max fake_pattern : Codes → Edit

-- `e.message || 'Unknown error'`
abbrev pub or_unknown : Codes → Codes
or_unknown m = if is_empty m then codes "Unknown error" else m

pub data Event (N : Type 0) : Type 0 where
  render : (data_ : Option (List (Row N))) → Event N
  add : Event N
  delete : (index : ℕ) → Event N
  edit : (index : ℕ) → Edit → Event N
  -- the registers of another machine, `none` if the request is refused or fails
  copy : Option (List (Row N)) → Event N
  open_csv : Event N
  in_dialog : DialogEvent → Event N
  -- the message of a rejected mutation, `none` if it is resolved
  save : Option Codes → Event N
  -- the timer that clears the mark of a save
  clear_status : Event N

module _ {N : Type 0} where
  -- a field of `row.fake`, which is shown only where that is an object
  write_fake : (Fake N → Fake N) → Option (Value N) → Row N → Row N
  unfolding set
  write_fake f (some (fake k)) row = set (codes "fake") (fake (f k)) row
  write_fake f _ row = row

  pub change_fake : (Fake N → Fake N) → Row N → Row N
  unfolding get write_fake
  change_fake f row = write_fake f (get (codes "fake") row) row

module _ {N : Type 0} ⦃e : Eq N⦄ (zero_n one hundred : N) where
  abbrev pub new_row : Row N
  new_row =
      (codes "name", text [])
      ∷ (codes "address", number zero_n)
      ∷ (codes "type", text (codes "holding"))
      ∷ (codes "data_type", text (codes "float32"))
      ∷ (codes "unit", text [])
      ∷ (codes "scale", number one)
      ∷ (codes "offset", number zero_n)
      ∷ (codes "byte_order", text (codes "big"))
      ∷ (codes "fake", null)
      ∷ []

  abbrev pub random_fake : Fake N
  random_fake = record { min = zero_n; max = hundred; pattern = codes "random" }

  module _ (parse_int parse_float : Codes → Option N) where
    -- `parseInt(s) || 0` and `parseFloat(s) || 0`
    pub number_of : NumberKey → Codes → N
    unfolding float_or_zero
    number_of address_key s = elim (parse_int s) [ none ↦ zero_n | some n ↦ n ]
    number_of scale_key s = float_or_zero zero_n one parse_float (some s)
    number_of offset_key s = float_or_zero zero_n one parse_float (some s)

    -- the field that an edit of a row writes, and its new value
    pub edit_row : Edit → Row N → Row N
    unfolding number_of change_fake set float_or_zero
    edit_row (type_text k s) row = set (text_name k) (text s) row
    edit_row (type_number k s) row = set (number_name k) (number (number_of k s)) row
    edit_row (check_fake true) row = set (codes "fake") (fake random_fake) row
    edit_row (check_fake false) row = set (codes "fake") null row
    edit_row (fake_min s) row =
        change_fake (λ k. record k { min = float_or_zero zero_n one parse_float (some s) }) row
    edit_row (fake_max s) row =
        change_fake (λ k. record k { max = float_or_zero zero_n one parse_float (some s) }) row
    edit_row (fake_pattern s) row = change_fake (λ k. record k { pattern = s }) row

    module _ (parse_json : Codes → Json N) (stringify : List (Row N) → Codes) where
      -- the test in the body of the component
      pub sync : Option (List (Row N)) → Table N → Table N
      sync none t = t
      sync (some regs) t =
          if stringify regs == t.data_key
          then t
          else record t { rows = regs; data_key = stringify regs }

      -- `handleImport`
      pub handle_import : List (Row N) → Mode → Table N → Table N
      handle_import regs replace t = record t { rows = regs; csv_open = false }
      handle_import regs append t = record t { rows = t.rows ++ regs; csv_open = false }

      abbrev pub on_call : Option (Call N) → Table N → Table N
      unfolding handle_import
      on_call none t = t
      on_call (some (on_import regs m)) t = handle_import regs m t
      on_call (some on_close) t = record t { csv_open = false }

      -- the registers that `handleSave` sends
      abbrev saved : Event N → Table N → Option (List (Row N))
      saved (save answer) t = some t.rows
      saved _ t = none

      unfoldable pub step : Event N → Table N → Table N
      unfolding sync on_call edit_row remove_at modify_at dialog_step
      step (render regs) t = sync regs t
      step add t = record t { rows = t.rows ++ new_row ∷ [] }
      step (delete index) t = record t { rows = remove_at index t.rows }
      step (edit index change) t = record t { rows = modify_at index (edit_row change) t.rows }
      step (copy none) t = t
      step (copy (some regs)) t = if length regs == 0 then t else record t { rows = regs }
      step open_csv t = record t { csv_open = true }
      step (in_dialog event) t =
          let (d, call) = dialog_step zero_n one parse_float parse_json event t.dialog in
          if needs_open event && not t.csv_open then t else on_call call (record t { dialog = d })
      step (save none) t = record t { save_status = success; error_msg = [] }
      step (save (some m)) t = record t { save_status = error; error_msg = or_unknown m }
      step clear_status t = record t { save_status = idle }

      unfoldable pub run : List (Event N) → Table N → Table N
      unfolding step
      run [] t = t
      run (event ∷ events) t = run events (step event t)
