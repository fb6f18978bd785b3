-- ===== src/Charts/LineChart/Merge.antt =====
-- What the merged rows hold.
use industry_dashboard.Base.{
  ◌≡◌, refl, sym, ap, ◌∙◌, true, ◌&&◌, String, List, [], ◌∷◌, ◌++◌, Option, none, some, Codes, ◌==◌,
  codes_eq, string_eq, ==_iff, arith, if◌then◌else◌, Bool-cases, inl, inr,
}
use industry_dashboard.Charts.LineChart.{
  Point, Result, Row, set, get, put, put_all, merge, value_at,
}

module _ {V : Type 0} where
  -- the points of all results that have the id of a source
  unfoldable pub points_of : Codes → List (Result V) → List (Point V)
  points_of id [] = []
  points_of id ((ds, data_) ∷ rest) =
      let more = points_of id rest in if ds.id == id then data_ ++ more else more

  -- the value of the last point at a time, or the value before it
  unfoldable pub last_at : String → List (Point V) → Option V → Option V
  last_at t [] before = before
  last_at t (p ∷ ps) before = last_at t ps (if p.time == t then some p.value else before)

  get-set :
      (i j : Codes) (v : V) (r : Row V) → get i (set j v r) ≡ (if i == j then some v else get i r)
  unfolding get set
  get-set i j v [] = ground (arith, ==_iff i j, ==_iff j i)
  get-set i j v ((k, u) ∷ r) =
      ground (arith, get-set i j v r, ==_iff i j, ==_iff k i, ==_iff k j, ==_iff j i)

  value_at-put :
      (t : String) (i j : Codes) (p : Point V) (rows : List (String × Row V))
      → value_at t i (put j p rows)
        ≡ (if (i == j) && (p.time == t) then some p.value else value_at t i rows)
  unfolding value_at put
  value_at-put t i j p [] = ground (arith, ==_iff j i, ==_iff i j, ==_iff p.time t)
  value_at-put t i j p ((u, row) ∷ rows) = ground (
    arith,
    value_at-put t i j p rows,
    get-set i j p.value row,
    ==_iff u t,
    ==_iff u p.time,
    ==_iff p.time t,
    ==_iff i j,
  )

  value_at-put_all :
      (t : String) (i j : Codes) (ps : List (Point V)) (rows : List (String × Row V))
      → value_at t i (put_all j ps rows)
        ≡ (if j == i then last_at t ps (value_at t i rows) else value_at t i rows)
  unfolding put_all last_at
  value_at-put_all t i j [] rows = ground arith
  value_at-put_all t i j (p ∷ ps) rows =
      let rest = value_at-put_all t i j ps (put j p rows) in
      let here = value_at-put t i j p rows in
      elim (Bool-cases (j == i)) [
        | inl same ↦
            let same' : (i == j) ≡ true = ground (arith, same, ==_iff j i, ==_iff i j) in
            let rest' = rw same at rest in
            let here' = rw same' at here in rw same (rest' ∙ ap (last_at t ps) here')
        | inr other ↦ ground (arith, rest, here, other, ==_iff j i, ==_iff i j)
      ]

  last_at-append :
      (t : String) (ps qs : List (Point V)) (before : Option V)
      → last_at t (ps ++ qs) before ≡ last_at t qs (last_at t ps before)
  unfolding last_at
  last_at-append t [] qs before = refl
  last_at-append t (p ∷ ps) qs before = last_at-append t ps qs _

  value_at-merge_from :
      (t : String) (id : Codes) (results : List (Result V)) (rows : List (String × Row V))
      → value_at t id (merge results rows) ≡ last_at t (points_of id results) (value_at t id rows)
  unfolding merge points_of last_at
  value_at-merge_from t id [] rows = refl
  value_at-merge_from t id ((ds, data_) ∷ rest) rows =
      let first = value_at-merge_from t id rest (put_all ds.id data_ rows) in
      let here = value_at-put_all t id ds.id data_ rows in
      elim (Bool-cases (ds.id == id)) [
        | inl same ↦ rw same (
            first
            ∙ ap (last_at t (points_of id rest)) (rw same at here)
            ∙ sym (last_at-append t data_ (points_of id rest) (value_at t id rows)))
        | inr other ↦ rw other (first ∙ ap (last_at t (points_of id rest)) (rw other at here))
      ]

  -- The chart shows, for the line of an id at a time, the value of the last point at that time among
  -- the points of the results with that id, in the order of the results, and nothing if there is none.
  pub value_at-merge :
      (t : String) (id : Codes) (results : List (Result V))
      → value_at t id (merge results []) ≡ last_at t (points_of id results) none
  unfolding value_at
  value_at-merge t id results = value_at-merge_from t id results []
