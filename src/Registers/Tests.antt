-- ===== src/Registers/Tests.antt =====
-- Files and runs of the table with natural numbers, and the theorems at them. The key of the data is
-- the number of rows here.
use industry_dashboard.Base.{
  ℕ, ◌+◌, ◌-◌, ◌*◌, ◌≡◌, ◌≢◌, true, not, ◌&&◌, List, [], ◌∷◌, ◌++◌, Option, none, some, Codes,
  codes, leb, length, split, join, all, ◌==◌, Lacks, All, refl, filter, trim, if◌then◌else◌, nat_eq,
  arith,
}
use industry_dashboard.Registers.{Row, number, text}
use industry_dashboard.Registers.Csv.{parse_csv}
use industry_dashboard.Registers.Csv.Printed.{
  print_csv, print_line, IsCell, IsLine, ReadsTable, parse_csv-cell,
}
use industry_dashboard.Registers.Import.{Json, bad, append}
use industry_dashboard.Registers.Table.{
  Table, Event, initial_table, render, add, delete, edit, save, check_fake, run, new_row,
}
use industry_dashboard.Registers.Table.Runs.{is_render, run-renders, run-save}

digits : ℕ → Codes → Option ℕ
digits n [] = some n
digits n (c ∷ s) =
    let rest = digits (n * 10 + (c - b'0')) s in if leb b'0' c && leb c b'9' then rest else some n

abbrev parse : Codes → Option ℕ
unfolding digits
parse [] = none
parse (c ∷ s) = if leb b'0' c && leb c b'9' then digits 0 (c ∷ s) else none

abbrev json : Codes → Json ℕ
json s = bad (codes "no JSON here")

abbrev row_count : List (Row ℕ) → Codes
row_count rows = length rows ∷ []

parse_csv_test :
    parse_csv 0 1 parse (codes "name, address ,type\nt1,40\n t2 , ,coil\r\n")
    ≡ ((codes "name", text (codes "t1"))
        ∷ (codes "address", number 40)
        ∷ (codes "type", text (codes "holding"))
        ∷ (codes "data_type", text (codes "float32"))
        ∷ (codes "byte_order", text (codes "big"))
        ∷ (codes "scale", number 1)
        ∷ [])
      ∷ ((codes "name", text (codes "t2"))
          ∷ (codes "address", number 0)
          ∷ (codes "type", text (codes "coil"))
          ∷ (codes "data_type", text (codes "float32"))
          ∷ (codes "byte_order", text (codes "big"))
          ∷ (codes "scale", number 1)
          ∷ [])
      ∷ []
unfolding parse_csv digits split trim
parse_csv_test = refl

abbrev headers : List Codes
headers = codes "name" ∷ codes "scale" ∷ []

abbrev file_rows : List (List Codes)
file_rows = (codes "t1" ∷ codes "0" ∷ []) ∷ (codes "t2" ∷ []) ∷ []

file_test : print_csv headers file_rows ≡ codes "name,scale\nt1,0\nt2"
unfolding print_csv join print_line
file_test = refl

free_of : (sep : ℕ) (c : Codes) → all (λ d. not (d == sep)) c ≡ true → Lacks sep c
free_of sep [] h = tt
free_of sep (d ∷ c) h = ground (arith, free_of sep c)

untouched :
    (c : Codes)
    → all (λ d. not (d == b',')) c ≡ true
    → all (λ d. not (d == 10)) c ≡ true
    → trim c ≡ c
    → IsCell c
untouched c comma line_end ends = (free_of b',' c comma, free_of 10 c line_end, ends)

file_lines : All IsLine (headers ∷ file_rows)
unfolding trim
file_lines = (
  (cc, (untouched (codes "name") refl refl refl, (untouched (codes "scale") refl refl refl, tt))),
  (
    (cc, (untouched (codes "t1") refl refl refl, (untouched (codes "0") refl refl refl, tt))),
    ((cc, (untouched (codes "t2") refl refl refl, tt)), tt),
  ),
)

untrimmed : trim (print_csv headers file_rows) ≡ print_csv headers file_rows
unfolding trim print_csv join print_line
untrimmed = refl

parse_csv-cell_example :
    ReadsTable 0 1 parse headers file_rows (parse_csv 0 1 parse (print_csv headers file_rows))
parse_csv-cell_example =
    parse_csv-cell 0 1 parse headers file_rows file_lines untrimmed (refl, (refl, tt))

abbrev row : Row ℕ
row = new_row 0 1 100

abbrev two_rows : Table ℕ
two_rows = record initial_table { rows = row ∷ row ∷ []; data_key = 2 ∷ [] }

abbrev edits : List (Event ℕ)
edits = edit 0 (check_fake true) ∷ render (some (row ∷ row ∷ [])) ∷ delete 1 ∷ add ∷ []

run-renders_example :
    run 0 1 100 parse parse json row_count (render (some (row ∷ row ∷ [])) ∷ edits) initial_table
    ≡ run 0 1 100 parse parse json row_count
        (render (some (row ∷ row ∷ [])) ∷ filter (λ ev. not (is_render ev)) edits)
        initial_table
run-renders_example =
    run-renders 0 1 100 parse parse json row_count (row ∷ row ∷ []) edits initial_table
      (tt, (refl, (tt, (tt, tt))))

abbrev new_rows : Table ℕ
new_rows = record two_rows { rows = row ∷ row ∷ row ∷ [] }

three_ne_two : row_count new_rows.rows ≢ new_rows.data_key
three_ne_two = λ h. ground (arith, h)

run-save_example :
    (run 0 1 100 parse parse json row_count
      (save none ∷ (delete 0 ∷ add ∷ add ∷ []) ++ render (some new_rows.rows) ∷ [])
      new_rows).rows
    ≡ new_rows.rows
run-save_example =
    run-save 0 1 100 parse parse json row_count (delete 0 ∷ add ∷ add ∷ []) new_rows three_ne_two
      refl

abbrev importing : Table ℕ
importing = record two_rows {
  csv_open = true;
  dialog = record { parsed = row ∷ []; mode = append; parse_error = [] };
}
