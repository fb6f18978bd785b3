-- ===== src/Registers/Csv/Fields.antt =====
-- The fields of a register that `parseCSV` makes from one line: what is assigned, and the defaults.
use industry_dashboard.Base.{
  ℕ, zero, suc, ◌+◌, ◌≡◌, refl, sym, false, not, ◌&&◌, List, [], ◌∷◌, Option, some, Codes, codes,
  ◌==◌, Eq, codes_eq, get_elem?, includes, Distinct, if◌then◌else◌, arith, ==_iff, ==_refl,
}
use industry_dashboard.Registers.{Value, number, text, Row, get, set, get-set, is_falsy}
use industry_dashboard.Registers.Csv.{cell, assign, default, apply_defaults}

module _ {N : Type 0} ⦃e : Eq N⦄ (zero_n one : N) (parse_float : Codes → Option N) where
  pub get-assign_other :
      (k : Codes) (values hs : List Codes) (i : ℕ) (reg : Row N)
      → includes k hs ≡ false
      → get k (assign zero_n one parse_float values hs i reg) ≡ get k reg
  unfolding assign
  get-assign_other k values [] i reg out = refl
  get-assign_other k values (h ∷ hs) i reg out =
      rw
        (get-assign_other k values hs (suc i)
          (set h (cell zero_n one parse_float h (get_elem? values i)) reg) (ground arith))
        (ground (
          arith,
          get-set k h (cell zero_n one parse_float h (get_elem? values i)) reg,
          ==_iff h k,
          ==_iff k h,
        ))

  pub get-assign :
      (values hs : List Codes) (i j : ℕ) (h : Codes) (reg : Row N)
      → Distinct hs
      → get_elem? hs j ≡ some h
      → get h (assign zero_n one parse_float values hs i reg)
        ≡ some (cell zero_n one parse_float h (get_elem? values (i + j)))
  unfolding assign
  get-assign values [] i j h reg d at_j = cc
  get-assign values (g ∷ hs) i zero h reg d at_j =
      let h≡ : g ≡ h = cc in
      let e0 : i + 0 ≡ i = omega arith in
      rw
        (
          e0,
          sym h≡,
          get-assign_other g values hs (suc i)
              (set g (cell zero_n one parse_float g (get_elem? values i)) reg) d.0,
          get-set g g (cell zero_n one parse_float g (get_elem? values i)) reg,
          ==_refl g,
        )
        refl
  get-assign values (g ∷ hs) i (suc j) h reg d at_j =
      let e1 : i + suc j ≡ suc i + j = omega arith in
      rw e1 (
        get-assign values hs (suc i) j h
          (set g (cell zero_n one parse_float g (get_elem? values i)) reg) d.1 at_j)

  -- What a row says of a field that is missing or empty.
  abbrev pub or_default : Codes → Option (Value N) → Option (Value N)
  or_default k v =
      if not (is_falsy zero_n v)
      then v
      else if k == codes "type"
      then some (text (codes "holding"))
      else if k == codes "data_type"
      then some (text (codes "float32"))
      else if k == codes "byte_order"
      then some (text (codes "big"))
      else if k == codes "scale"
      then some (number one)
      else v

  get-default :
      (k j : Codes) (v : Value N) (reg : Row N)
      → get k (default zero_n one parse_float j v reg)
        ≡ (if k == j && is_falsy zero_n (get k reg) then some v else get k reg)
  unfolding default
  get-default k j v reg = ground (arith, get-set k j v reg, ==_iff k j)

  pub get-apply_defaults :
      (k : Codes) (reg : Row N)
      → get k (apply_defaults zero_n one parse_float reg) ≡ or_default k (get k reg)
  unfolding apply_defaults
  get-apply_defaults k reg =
      let r1 = default zero_n one parse_float (codes "type") (text (codes "holding")) reg in
      let r2 = default zero_n one parse_float (codes "data_type") (text (codes "float32")) r1 in
      let r3 = default zero_n one parse_float (codes "byte_order") (text (codes "big")) r2 in
      ground (
        arith,
        get-default k (codes "type") (text (codes "holding")) reg,
        get-default k (codes "data_type") (text (codes "float32")) r1,
        get-default k (codes "byte_order") (text (codes "big")) r2,
        get-default k (codes "scale") (number one) r3,
        ==_iff k (codes "type"),
        ==_iff k (codes "data_type"),
        ==_iff k (codes "byte_order"),
        ==_iff k (codes "scale"),
      )
