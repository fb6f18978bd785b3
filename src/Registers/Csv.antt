-- ===== src/Registers/Csv.antt =====
-- `parseCSV`. `parse_float` is JavaScript's, `none` where it is NaN.
pub mod Fields
pub mod Printed
use industry_dashboard.Base.{
  ℕ, zero, suc, ◌≡◌, Bool, true, false, not, ◌||◌, List, [], ◌∷◌, map, Option, none, some, Codes,
  codes, trim, split, ◌==◌, Eq, codes_eq, get_elem?, is_empty, if◌then◌else◌,
}
use industry_dashboard.Registers.{Value, number, text, Row, get, set, is_falsy}

-- `values[i] || ''`
abbrev pub or_empty : Option Codes → Codes
or_empty none = []
or_empty (some s) = s

-- the headers of numbers
is_number_header : Codes → Bool
is_number_header h = h == codes "address" || h == codes "scale" || h == codes "offset"

-- `s.split(',').map((v) => v.trim())`
pub cells : Codes → List Codes
cells line = map trim (split b',' line)

module _ {N : Type 0} ⦃e : Eq N⦄ (zero_n one : N) (parse_float : Codes → Option N) where
  -- `parseFloat(s) || 0`; of `undefined` it is 0 as well
  unfoldable pub float_or_zero : Option Codes → N
  float_or_zero none = zero_n
  float_or_zero (some s) = elim (parse_float s) [ none ↦ zero_n | some n ↦ n ]

  -- one cell
  pub cell : Codes → Option Codes → Value N
  unfolding float_or_zero is_number_header
  cell h v = if is_number_header h then number (float_or_zero v) else text (or_empty v)

  -- the callback of `headers.forEach`, from the `i`-th header on
  pub assign : List Codes → List Codes → ℕ → Row N → Row N
  unfolding cell set
  assign values [] i reg = reg
  assign values (h ∷ hs) i reg = assign values hs (suc i) (set h (cell h (get_elem? values i)) reg)

  -- `if (!reg[key]) reg[key] = v`
  pub default : Codes → Value N → Row N → Row N
  unfolding is_falsy get set
  default key v reg = if is_falsy zero_n (get key reg) then set key v reg else reg

  pub apply_defaults : Row N → Row N
  unfolding default
  apply_defaults reg = default (codes "scale") (number one) (
      default (codes "byte_order") (text (codes "big")) (
        default (codes "data_type") (text (codes "float32"))
          (default (codes "type") (text (codes "holding")) reg)))

  pub parse_line : List Codes → Codes → Row N
  unfolding assign apply_defaults cells
  parse_line headers line = apply_defaults (assign (cells line) headers 0 [])

  pub parse_lines : List Codes → List (Row N)
  unfolding parse_line cells
  parse_lines [] = []
  parse_lines (header ∷ lines) = map (parse_line (cells header)) lines

  -- `parseCSV`; a file of one line has no rows
  unfoldable pub parse_csv : Codes → List (Row N)
  unfolding parse_lines
  parse_csv s = parse_lines (split 10 (trim s))
