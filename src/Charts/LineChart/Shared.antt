-- ===== src/Charts/LineChart/Shared.antt =====
-- Two lines with the same machine and metric: their queries have one key, so one entry of the cache.
use industry_dashboard.Base.{
  ◌≡◌, ◌≢◌, ◌⊎◌, refl, sym, ap, ◌∙◌, subst, true, false, String, List, [], ◌∷◌, map, includes,
  Distinct, Option, Option-cases, none, some, Codes, ◌==◌, codes_eq, string_eq, ==_iff, ==_refl,
  arith, Bool-cases, inl, inr,
}
use industry_dashboard.Charts.LineChart.{
  DataSource, Key, query_key, Point, Result, add_result, all_data, merge, value_at,
}
use industry_dashboard.Charts.LineChart.Merge.{points_of, last_at, value_at-merge}

abbrev Member : DataSource → List DataSource → Type 0
Member a [] = ⊥
Member a (b ∷ bs) = (a ≡ b) ⊎ Member a bs

abbrev source_ids : List DataSource → List Codes
source_ids ds = map (λ d. d.id) ds

includes-source_ids :
    (a : DataSource) (bs : List DataSource) → Member a bs → includes a.id (source_ids bs) ≡ true
includes-source_ids a [] m = absurd m
includes-source_ids a (b ∷ bs) (inl e) =
    let e' : a.id ≡ b.id = ap (λ d. d.id) e in ground (arith, e', ==_refl b.id)
includes-source_ids a (b ∷ bs) (inr m) = ground (arith, includes-source_ids a bs m)

absent_lem :
    (b c : DataSource) (ds : List DataSource)
    → includes c.id (source_ids ds) ≡ false
    → Member b ds
    → b.id ≡ c.id
    → ⊥
absent_lem b c ds out m e =
    let h : includes c.id (source_ids ds) ≡ true =
      subst (λ i. includes i (source_ids ds) ≡ true) e (includes-source_ids b ds m) in
    cc

-- Of a list with distinct ids, two members with one id are one.
one_source :
    (a b : DataSource) (ds : List DataSource)
    → Distinct (source_ids ds)
    → Member a ds
    → Member b ds
    → a.id ≡ b.id
    → a ≡ b
one_source a b [] d ma mb e = absurd ma
one_source a b (c ∷ ds) d (inl ea) (inl eb) e = ea ∙ sym eb
one_source a b (c ∷ ds) d (inl ea) (inr mb) e =
    absurd (absent_lem b c ds d.0 mb (sym e ∙ ap (λ x. x.id) ea))
one_source a b (c ∷ ds) d (inr ma) (inl eb) e =
    absurd (absent_lem a c ds d.0 ma (e ∙ ap (λ x. x.id) eb))
one_source a b (c ∷ ds) d (inr ma) (inr mb) e = one_source a b ds d.1 ma mb e

module _ {V : Type 0} where
  -- One entry has one owner.
  same_owner :
      (r : Option (Result V)) (o o' : DataSource) (ps ps' : List (Point V))
      → r ≡ some (o, ps)
      → r ≡ some (o', ps')
      → o.id ≡ o'.id
  same_owner r o o' ps ps' e e' =
      let both : ◌≡◌ {A = Option (Result V)} (some (o, ps)) (some (o', ps')) = sym e ∙ e' in
      let owners : o ≡ o' = cc in ap (λ x. x.id) owners

  points_of-add_result :
      (i : Codes) (o : Option (Result V)) (rest : List (Result V))
      → ((owner : DataSource) (points : List (Point V)) → o ≡ some (owner, points) → owner.id ≢ i)
      → points_of i rest ≡ []
      → points_of i (add_result o rest) ≡ []
  unfolding points_of add_result
  points_of-add_result i none rest other h = h
  points_of-add_result i (some (owner, points)) rest other h =
      let ne = other owner points refl in ground (arith, ne, h, ==_iff owner.id i)

module _ {V : Type 0} (entry : Key → Option (Result V)) where
  -- What the cache has for a key was returned by the query function of a source with that key.
  abbrev pub IsCache : List DataSource → Type 0
  IsCache sources =
      (k : Key) (owner : DataSource) (points : List (Point V))
      → entry k ≡ some (owner, points)
      → Member owner sources × (query_key owner ≡ k)

  -- If the entry for the key of a source is not its own, no result has its id.
  no_points :
      (sources : List DataSource) (x : DataSource) (queries : List DataSource)
      → IsCache sources
      → Distinct (source_ids sources)
      → Member x sources
      → ((owner : DataSource) (points : List (Point V))
          → entry (query_key x) ≡ some (owner, points)
          → owner.id ≢ x.id)
      → points_of x.id (all_data entry queries) ≡ []
  unfolding all_data points_of
  no_points sources x [] cache d mx other = refl
  no_points sources x (q ∷ queries) cache d mx other =
      points_of-add_result x.id (entry (query_key q)) (all_data entry queries)
        (λ o points e same.
          let (mo, ko) = cache (query_key q) o points e in
          let one = one_source o x sources d mo mx same in
          other o points (ap entry (sym (ap query_key one) ∙ ko) ∙ e) same)
        (no_points sources x queries cache d mx other)

  -- the line of a source whose entry is not its own
  abbrev pub IsEmptyLine : List DataSource → DataSource → Type 0
  IsEmptyLine sources x = (t : String) → value_at t x.id (merge (all_data entry sources) []) ≡ none

  empty_line :
      (sources : List DataSource) (x : DataSource)
      → IsCache sources
      → Distinct (source_ids sources)
      → Member x sources
      → ((owner : DataSource) (points : List (Point V))
          → entry (query_key x) ≡ some (owner, points)
          → owner.id ≢ x.id)
      → IsEmptyLine sources x
  unfolding last_at
  empty_line sources x cache d mx other = λ t.
      value_at-merge t x.id (all_data entry sources)
      ∙ ap (λ ps. last_at t ps none) (no_points sources x sources cache d mx other)

  -- Of two sources of one chart with different ids and the same machine and metric, where ids are not
  -- shared and each entry of the cache was returned by the query function of a source with its key,
  -- one has no point in the chart.
  pub merge-shared :
      (sources : List DataSource) (a b : DataSource)
      → IsCache sources
      → Distinct (source_ids sources)
      → Member a sources
      → Member b sources
      → query_key a ≡ query_key b
      → a.id ≢ b.id
      → IsEmptyLine sources a ⊎ IsEmptyLine sources b
  merge-shared sources a b cache d ma mb k ne = elim (Option-cases (entry (query_key a))) [
    | inl nothing ↦ inl (empty_line sources a cache d ma (λ o points e same. cc))
    | inr ((owner, points), found) ↦ elim (Bool-cases (owner.id == a.id)) [
      | inl own ↦ inr (
          empty_line sources b cache d mb (λ o ps e same.
            let owners =
              same_owner (entry (query_key b)) o owner ps points e (sym (ap entry k) ∙ found) in
            ne (sym ((==_iff owner.id a.id).0 own) ∙ sym owners ∙ same)))
      | inr foreign ↦ inl (
          empty_line sources a cache d ma (λ o ps e same.
            let owners = same_owner (entry (query_key a)) o owner ps points e found in
            let is_a : owner.id ≡ a.id = sym owners ∙ same in
            ground (arith, foreign, is_a, ==_iff owner.id a.id)))
    ]
  ]
