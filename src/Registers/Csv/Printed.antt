-- ===== src/Registers/Csv/Printed.antt =====
-- Files that hold a table: what `parseCSV` reads from them.
use industry_dashboard.Base.{
  ℕ, ◌+◌, ◌≡◌, ◌≢◌, refl, ap, ◌∙◌, false, List, [], ◌∷◌, ◌++◌, map, Option, none, some, Codes, trim,
  split, join, split-join, Lacks, All, Eq, codes_eq, get_elem?, length, length-map, get_elem?-map,
  includes, Distinct, arith,
}
use industry_dashboard.Registers.{Row, get}
use industry_dashboard.Registers.Csv.Fields.{
  or_default, get-assign, get-assign_other, get-apply_defaults,
}
use industry_dashboard.Registers.Csv.{
  cell, cells, assign, apply_defaults, parse_line, parse_lines, parse_csv,
}

-- the text of one line, and of a file
unfoldable pub print_line : List Codes → Codes
print_line cs = join (b',' ∷ []) cs

unfoldable pub print_csv : List Codes → List (List Codes) → Codes
print_csv headers rows = join (10 ∷ []) (map print_line (headers ∷ rows))

-- A cell that stands in a file as it is: no comma, no end of a line, no white space at its ends.
abbrev pub IsCell : Codes → Type 0
IsCell c = Lacks b',' c × Lacks 10 c × (trim c ≡ c)

-- A line that is not empty.
abbrev pub IsLine : List Codes → Type 0
IsLine cs = (cs ≢ []) × All IsCell cs

module _ {ℓ} {A : Type ℓ} (P : A → Type 0) where
  All-append : (xs ys : List A) → All P xs → All P ys → All P (xs ++ ys)
  All-append [] ys p q = q
  All-append (x ∷ xs) ys p q = (p.0, All-append xs ys p.1 q)

Lacks-join :
    (sep : ℕ) (glue : Codes) (ps : List Codes)
    → Lacks sep glue
    → All (Lacks sep) ps
    → Lacks sep (join glue ps)
unfolding join
Lacks-join sep glue [] g h = tt
Lacks-join sep glue (p ∷ []) g h = h.0
Lacks-join sep glue (p ∷ q ∷ ps) g h =
    All-append (λ c. c ≢ sep) p _ h.0
      (All-append (λ c. c ≢ sep) glue _ g (Lacks-join sep glue (q ∷ ps) g h.1))

All-Lacks : (cs : List Codes) → All IsCell cs → All (Lacks b',') cs × All (Lacks 10) cs
All-Lacks [] h = (tt, tt)
All-Lacks (c ∷ cs) h = let (a, b) = All-Lacks cs h.1 in ((h.0.0, a), (h.0.1, b))

trim_cells : (cs : List Codes) → All IsCell cs → map trim cs ≡ cs
trim_cells [] h = refl
trim_cells (c ∷ cs) h = rw (h.0.2, trim_cells cs h.1)

-- The cells of a printed line are found again.
cells-print_line : (cs : List Codes) → IsLine cs → cells (print_line cs) ≡ cs
unfolding cells split print_line
cells-print_line [] h = absurd (h.0 refl)
cells-print_line (c ∷ cs) h =
    rw (split-join b',' c cs (All-Lacks (c ∷ cs) h.1).0) (trim_cells (c ∷ cs) h.1)

lines_Lacks : (rows : List (List Codes)) → All IsLine rows → All (Lacks 10) (map print_line rows)
unfolding print_line join
lines_Lacks [] h = tt
lines_Lacks (r ∷ rows) h = (
  Lacks-join 10 (b',' ∷ []) r ((λ same. omega (arith, same)), tt) (All-Lacks r h.0.1).1,
  lines_Lacks rows h.1,
)

module _ {N : Type 0} ⦃e : Eq N⦄ (zero_n one : N) (parse_float : Codes → Option N) where
  unfoldable register_of : List Codes → List Codes → Row N
  unfolding apply_defaults assign
  register_of headers row =
      apply_defaults zero_n one parse_float (assign zero_n one parse_float row headers 0 [])

  get-register_of :
      (headers values : List Codes) (i : ℕ) (h : Codes)
      → Distinct headers
      → get_elem? headers i ≡ some h
      → get h (register_of headers values)
        ≡ or_default zero_n one parse_float h
            (some (cell zero_n one parse_float h (get_elem? values i)))
  unfolding register_of
  get-register_of headers values i h d at_i =
      let reg = assign zero_n one parse_float values headers 0 [] in
      let e0 : 0 + i ≡ i = omega arith in
      get-apply_defaults zero_n one parse_float h reg
      ∙ ap (or_default zero_n one parse_float h)
          (rw e0 at (get-assign zero_n one parse_float values headers 0 i h [] d at_i))

  get-register_of_other :
      (headers values : List Codes) (k : Codes)
      → includes k headers ≡ false
      → get k (register_of headers values) ≡ or_default zero_n one parse_float k none
  unfolding register_of get
  get-register_of_other headers values k out =
      let reg = assign zero_n one parse_float values headers 0 [] in
      get-apply_defaults zero_n one parse_float k reg
      ∙ ap (or_default zero_n one parse_float k)
          (get-assign_other zero_n one parse_float k values headers 0 [] out)

  parse_lines-print_line :
      (headers : List Codes) (rows : List (List Codes))
      → All IsLine rows
      → map (parse_line zero_n one parse_float headers) (map print_line rows)
        ≡ map (register_of headers) rows
  unfolding parse_line register_of
  parse_lines-print_line headers [] h = refl
  parse_lines-print_line headers (r ∷ rows) h =
      rw (cells-print_line r h.0, parse_lines-print_line headers rows h.1) refl

  parse_csv-print_csv :
      (headers : List Codes) (rows : List (List Codes))
      → All IsLine (headers ∷ rows)
      → trim (print_csv headers rows) ≡ print_csv headers rows
      → parse_csv zero_n one parse_float (print_csv headers rows) ≡ map (register_of headers) rows
  unfolding parse_csv print_csv parse_lines
  parse_csv-print_csv headers rows lines untrimmed =
      rw
        (
          untrimmed,
          split-join 10 (print_line headers) (map print_line rows)
              (lines_Lacks (headers ∷ rows) lines),
          cells-print_line headers lines.0,
        )
        (parse_lines-print_line headers rows lines.1)

  -- One register for each row: its field at a header is the row's cell there, and a key that is no
  -- header has its default.
  abbrev pub ReadsTable : List Codes → List (List Codes) → List (Row N) → Type 0
  ReadsTable headers rows regs =
      (length regs ≡ length rows)
      × ((r : ℕ) (values : List Codes)
          → get_elem? rows r ≡ some values
          → (reg : Row N) × (get_elem? regs r ≡ some reg)
            × ((i : ℕ) (h : Codes)
                → get_elem? headers i ≡ some h
                → get h reg
                  ≡ or_default zero_n one parse_float h
                      (some (cell zero_n one parse_float h (get_elem? values i))))
            × ((k : Codes)
                → includes k headers ≡ false
                → get k reg ≡ or_default zero_n one parse_float k none))

  -- A file that is the printed table of headers, no two the same, and rows, where no line is empty,
  -- no cell holds a comma, an end of a line or white space at its ends, and the file none at its
  -- ends, is read as one register for each row, in order: its field at a header is the row's cell
  -- there, and at a key that is no header it is missing; a missing or empty `type`, `data_type` or
  -- `byte_order`, and a `scale` that is missing, empty, no number or zero, has its default.
  pub parse_csv-cell :
      (headers : List Codes) (rows : List (List Codes))
      → All IsLine (headers ∷ rows)
      → trim (print_csv headers rows) ≡ print_csv headers rows
      → Distinct headers
      → ReadsTable headers rows (parse_csv zero_n one parse_float (print_csv headers rows))
  parse_csv-cell headers rows lines untrimmed d =
      let e = parse_csv-print_csv headers rows lines untrimmed in
      rw e (
        length-map (register_of headers) rows,
        λ r values at_r. (
          register_of headers values,
          get_elem?-map (register_of headers) rows r at_r,
          λ i h at_i. get-register_of headers values i h d at_i,
          λ k out. get-register_of_other headers values k out,
        ),
      )
