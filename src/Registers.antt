-- ===== src/Registers.antt =====
-- The registers of a machine: frontend/src/components/admin/RegisterTable.tsx (`Table`) and
-- frontend/src/components/admin/CsvImportDialog.tsx (`Csv`, `Import`). A register is an object of
-- type `any`: the list of its fields in the order in which they were added, each once. Its numbers
-- are JavaScript numbers that are not NaN, of a type that is a parameter with `===`.
pub mod Csv
pub mod Import
pub mod Table
mod Tests
use industry_dashboard.Base.{
  ℕ, ◌≡◌, refl, sym, ◌∙◌, Bool, true, false, not, List, [], ◌∷◌, Option, none, some, String, Codes,
  codes, is_empty, ◌==◌, Eq, codes_eq, if◌then◌else◌, arith, ==_iff, ==_refl,
}

-- `fake` of a register
pub record Fake (N : Type 0) : Type 0 where
  pub min : N
  pub max : N
  pub pattern : Codes

pub data Value (N : Type 0) : Type 0 where
  number : N → Value N
  text : Codes → Value N
  fake : Fake N → Value N
  null : Value N

abbrev pub Row : Type 0 → Type 0
Row N = List (Codes × Value N)

module _ {N : Type 0} where
  -- `row[key]`; `none` is `undefined`
  unfoldable pub get : Codes → Row N → Option (Value N)
  get key [] = none
  get key ((k, v) ∷ fs) = let rest = get key fs in if k == key then some v else rest

  -- `row[key] = v`, and `{ ...row, [key]: v }`: a field that is there keeps its place
  unfoldable pub set : Codes → Value N → Row N → Row N
  set key v [] = (key, v) ∷ []
  set key v ((k, u) ∷ fs) =
      let rest = set key v fs in if k == key then (k, v) ∷ fs else (k, u) ∷ rest

  pub get-set :
      (j k : Codes) (v : Value N) (r : Row N)
      → get j (set k v r) ≡ (if j == k then some v else get j r)
  unfolding get set
  get-set j k v [] = ground (arith, ==_iff j k, ==_iff k j)
  get-set j k v ((i, u) ∷ r) =
      ground (arith, get-set j k v r, ==_iff j k, ==_iff i k, ==_iff i j, ==_iff k j)

module _ {N : Type 0} ⦃e : Eq N⦄ (zero : N) where
  -- what an `if` takes for false
  pub is_falsy : Option (Value N) → Bool
  is_falsy none = true
  is_falsy (some (number n)) = n == zero
  is_falsy (some (text s)) = is_empty s
  is_falsy (some (fake f)) = false
  is_falsy (some null) = true
