-- ===== src/Registers/Table/Edits.antt =====
-- What an edit does to the rows.
use industry_dashboard.Base.{
  ℕ, ◌≡◌, refl, true, false, List, length, get_elem?, Option, none, some, Codes, codes, ◌==◌, Eq,
  nat_eq, codes_eq, if◌then◌else◌, arith, ==_iff, ==_refl,
}
use industry_dashboard.Base.Indexed.{get_elem?-modify_at, length-modify_at}
use industry_dashboard.Registers.{Fake, Value, number, text, fake, null, Row, get, get-set}
use industry_dashboard.Registers.Csv.{float_or_zero}
use industry_dashboard.Registers.Import.{Json}
use industry_dashboard.Registers.Table.{
  Table, Edit, type_text, type_number, check_fake, fake_min, fake_max, fake_pattern, text_name,
  number_name, random_fake, number_of, write_fake, change_fake, edit_row, edit, step,
}

-- the field that an edit is about
abbrev edited_key : Edit → Codes
edited_key (type_text k s) = text_name k
edited_key (type_number k s) = number_name k
edited_key _ = codes "fake"

module _ {N : Type 0} where
  abbrev map_fake : (Fake N → Fake N) → Option (Value N) → Option (Value N)
  map_fake f none = none
  map_fake f (some (number n)) = some (number n)
  map_fake f (some (text s)) = some (text s)
  map_fake f (some (fake k)) = some (fake (f k))
  map_fake f (some null) = some null

  -- by what stands in the field
  get-write_fake :
      (j : Codes) (f : Fake N → Fake N) (r : Row N) (v : Option (Value N))
      → get (codes "fake") r ≡ v
      → get j (write_fake f v r) ≡ (if j == codes "fake" then map_fake f v else get j r)
  unfolding write_fake
  get-write_fake j f r (some (fake k)) h = get-set j (codes "fake") (fake (f k)) r
  get-write_fake j f r none h = ground (arith, ==_iff j (codes "fake"))
  get-write_fake j f r (some (number n)) h = ground (arith, ==_iff j (codes "fake"))
  get-write_fake j f r (some (text s)) h = ground (arith, ==_iff j (codes "fake"))
  get-write_fake j f r (some null) h = ground (arith, ==_iff j (codes "fake"))

module _ {N : Type 0} ⦃e : Eq N⦄ (zero_n one hundred : N)
    (parse_int parse_float : Codes → Option N) where
  -- the field after the edit, from what it was
  abbrev edited_value : Edit → Option (Value N) → Option (Value N)
  edited_value (type_text k s) v = some (text s)
  edited_value (type_number k s) v =
      some (number (number_of zero_n one hundred parse_int parse_float k s))
  edited_value (check_fake on) v = some (if on then fake (random_fake zero_n one hundred) else null)
  edited_value (fake_min s) v =
      map_fake (λ k. record k { min = float_or_zero zero_n one parse_float (some s) }) v
  edited_value (fake_max s) v =
      map_fake (λ k. record k { max = float_or_zero zero_n one parse_float (some s) }) v
  edited_value (fake_pattern s) v = map_fake (λ k. record k { pattern = s }) v

  get-edit_row :
      (j : Codes) (c : Edit) (r : Row N)
      → get j (edit_row zero_n one hundred parse_int parse_float c r)
        ≡ (if j == edited_key c then edited_value c (get (edited_key c) r) else get j r)
  unfolding edit_row change_fake
  get-edit_row j (type_text k s) r = get-set j (text_name k) (text s) r
  get-edit_row j (type_number k s) r = get-set j (number_name k) _ r
  get-edit_row j (check_fake true) r = get-set j (codes "fake") _ r
  get-edit_row j (check_fake false) r = get-set j (codes "fake") _ r
  get-edit_row j (fake_min s) r = get-write_fake j _ r _ refl
  get-edit_row j (fake_max s) r = get-write_fake j _ r _ refl
  get-edit_row j (fake_pattern s) r = get-write_fake j _ r _ refl

  abbrev pub IsEdited : ℕ → Edit → Row N → (before after : List (Row N)) → Type 0
  IsEdited index c r before after =
      (length after ≡ length before)
      × ((j : ℕ) → (j == index) ≡ false → get_elem? after j ≡ get_elem? before j)
      × (r' : Row N) × (get_elem? after index ≡ some r')
      × (get (edited_key c) r' ≡ edited_value c (get (edited_key c) r))
      × ((k : Codes) → (k == edited_key c) ≡ false → get k r' ≡ get k r)

  module _ (parse_json : Codes → Json N) (stringify : List (Row N) → Codes) where
    -- An edit of a row of the table keeps the number of rows and every other row, and of its own
    -- row every field but the one that it is about, which then holds what was typed.
    pub step-edit :
        (index : ℕ) (c : Edit) (t : Table N) (r : Row N)
        → get_elem? t.rows index ≡ some r
        → IsEdited index c r t.rows
            (step zero_n one hundred parse_int parse_float parse_json stringify
              (edit index c)
              t).rows
    unfolding step
    step-edit index c t r at_index =
        let f = edit_row zero_n one hundred parse_int parse_float c in
        (
          length-modify_at index f t.rows,
          λ j other. ground (arith, get_elem?-modify_at index j f t.rows),
          f r,
          ground (arith, get_elem?-modify_at index index f t.rows, ==_refl index, at_index),
          ground (arith, get-edit_row (edited_key c) c r, ==_refl (edited_key c)),
          λ k other. ground (arith, get-edit_row k c r),
        )
