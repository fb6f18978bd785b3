-- ===== src/Indicators/Matching/First.antt =====
-- What the texts of mappings mean in frontend/src/components/widgets/IndicatorWidget.tsx, and the first mapping
-- with a meaning that a value has.
use industry_dashboard.Base.{
  ℕ, ◌≡◌, refl, sym, ap, subst, ◌∙◌, inl, inr, ◌⊎◌, Bool, true, false, ◌||◌, List, [], ◌∷◌, Option,
  none, some, Codes, codes, trim, starts_with, drop, ◌==◌, nat_eq, codes_eq, eq_of_==, ==_refl,
  Bool-cases,
}
use industry_dashboard.Indicators.{ValueMapping, Numbers}
use industry_dashboard.Indicators.Ranges.{range_match, range_match-append, both}
use industry_dashboard.Indicators.Ranges.Found.{IsRange, range, IsRangeOf, range_match-IsRangeOf}
use industry_dashboard.Indicators.Matching.{
  holds, is_between, test_at_least, test_at_most, test_above, test_below, matches, first_match,
  match_mapping,
}

either : (a b : Bool) → (a || b) ≡ true → (a ≡ true) ⊎ (b ≡ true)
either true b h = inl refl
either false b h = inr h

or_first : (a b : Bool) → a ≡ true → (a || b) ≡ true
or_first true b h = refl
or_first false b h = absurd cc

or_second : (a b : Bool) → b ≡ true → (a || b) ≡ true
or_second true b h = refl
or_second false b h = h

second : (a b c d e f : Bool) → b ≡ true → (a || (b || (c || (d || (e || f))))) ≡ true
second a b c d e f h = or_second a _ (or_first b _ h)

third : (a b c d e f : Bool) → c ≡ true → (a || (b || (c || (d || (e || f))))) ≡ true
third a b c d e f h = or_second a _ (or_second b _ (or_first c _ h))

fourth : (a b c d e f : Bool) → d ≡ true → (a || (b || (c || (d || (e || f))))) ≡ true
fourth a b c d e f h = or_second a _ (or_second b _ (or_second c _ (or_first d _ h)))

fifth : (a b c d e f : Bool) → e ≡ true → (a || (b || (c || (d || (e || f))))) ≡ true
fifth a b c d e f h = or_second a _ (or_second b _ (or_second c _ (or_second d _ (or_first e _ h))))

sixth : (a b c d e f : Bool) → f ≡ true → (a || (b || (c || (d || (e || f))))) ≡ true
sixth a b c d e f h =
    or_second a _ (or_second b _ (or_second c _ (or_second d _ (or_second e _ (h)))))

holds-some :
    {A : Type 0} (p : A → Bool) (o : Option A)
    → holds p o ≡ true
    → (a : A) × ((o ≡ some a) × (p a ≡ true))
holds-some p none h = absurd cc
holds-some p (some a) h = (a, (refl, h))

one_of : (c : ℕ) (v : Codes) → starts_with v (c ∷ []) ≡ true → v ≡ c ∷ drop 1 v
one_of c [] h = cc
one_of c (d ∷ v) h = ap (λ e. e ∷ v) (eq_of_== d c (both (d == c) true h).0)

two_of : (c e : ℕ) (v : Codes) → starts_with v (c ∷ e ∷ []) ≡ true → v ≡ c ∷ e ∷ drop 2 v
two_of c e [] h = cc
two_of c e (d ∷ v) h =
    let (first, second) = both (d == c) (starts_with v (e ∷ [])) h in
    ap (λ f. f ∷ v) (eq_of_== d c first) ∙ ap (λ l. c ∷ l) (one_of e v second)

range_holds : (v lo hi : Codes) → IsRange v lo hi → range_match v ≡ some (lo, hi)
range_holds _ _ _ (range lo hi sp sp' l h s s') = range_match-append lo hi sp sp' l h s s'

module _ {N : Type 0} (numbers : Numbers N) where
  -- what a text says of a number
  pub data Means (x : N) : Codes → Type 0 where
    printed : Means x (numbers.show x)
    at_least :
        (s : Codes) (a : N)
        → numbers.read s ≡ some a
        → numbers.at_most a x ≡ true
        → Means x (b'>' ∷ b'=' ∷ s)
    at_most :
        (s : Codes) (a : N)
        → numbers.read s ≡ some a
        → numbers.at_most x a ≡ true
        → Means x (b'<' ∷ b'=' ∷ s)
    above :
        (s : Codes) (a : N) → numbers.read s ≡ some a → numbers.less a x ≡ true → Means x (b'>' ∷ s)
    below :
        (s : Codes) (a : N) → numbers.read s ≡ some a → numbers.less x a ≡ true → Means x (b'<' ∷ s)
    between :
        (v lo hi : Codes) (a b : N)
        → IsRange v lo hi
        → numbers.read lo ≡ some a
        → numbers.read hi ≡ some b
        → numbers.at_most a x ≡ true
        → numbers.at_most x b ≡ true
        → Means x v

  -- the first of the mappings whose value, without the white space at its ends, says something true of a number
  pub data IsFirst (x : N) : List ValueMapping → Option ValueMapping → Type 0 where
    nothing : IsFirst x [] none
    here :
        {m : ValueMapping} {ms : List ValueMapping}
        → Means x (trim m.value)
        → IsFirst x (m ∷ ms) (some m)
    there :
        {m : ValueMapping} {ms : List ValueMapping} {found : Option ValueMapping}
        → (Means x (trim m.value) → ⊥)
        → IsFirst x ms found
        → IsFirst x (m ∷ ms) found

  between_lem :
      (x : N) (v : Codes) (o : Option (Codes × Codes))
      → IsRangeOf v o
      → is_between numbers x o ≡ true
      → Means x v
  between_lem x v none r h = cc
  between_lem x v (some (lo, hi)) r h =
      let (l, k) =
        both (holds (λ a. numbers.at_most a x) (numbers.read lo))
          (holds (λ b. numbers.at_most x b) (numbers.read hi)) h in
      let (a, (read_a, at_a)) = holds-some (λ a. numbers.at_most a x) (numbers.read lo) l in
      let (b, (read_b, at_b)) = holds-some (λ b. numbers.at_most x b) (numbers.read hi) k in
      between v lo hi a b r read_a read_b at_a at_b

  at_least_sound : (x : N) (v : Codes) → test_at_least numbers x v ≡ true → Means x v
  at_least_sound x v h =
      let (s, k) = both (starts_with v (codes ">=")) _ h in
      let (a, (r, m)) = holds-some (λ a. numbers.at_most a x) (numbers.read (drop 2 v)) k in
      subst (λ t. Means x t) (sym (two_of b'>' b'=' v s)) (at_least (drop 2 v) a r m)

  at_most_sound : (x : N) (v : Codes) → test_at_most numbers x v ≡ true → Means x v
  at_most_sound x v h =
      let (s, k) = both (starts_with v (codes "<=")) _ h in
      let (a, (r, m)) = holds-some (λ a. numbers.at_most x a) (numbers.read (drop 2 v)) k in
      subst (λ t. Means x t) (sym (two_of b'<' b'=' v s)) (at_most (drop 2 v) a r m)

  above_sound : (x : N) (v : Codes) → test_above numbers x v ≡ true → Means x v
  above_sound x v h =
      let (s, k) = both (starts_with v (codes ">")) _ h in
      let (a, (r, m)) = holds-some (λ a. numbers.less a x) (numbers.read (drop 1 v)) k in
      subst (λ t. Means x t) (sym (one_of b'>' v s)) (above (drop 1 v) a r m)

  below_sound : (x : N) (v : Codes) → test_below numbers x v ≡ true → Means x v
  below_sound x v h =
      let (s, k) = both (starts_with v (codes "<")) _ h in
      let (a, (r, m)) = holds-some (λ a. numbers.less x a) (numbers.read (drop 1 v)) k in
      subst (λ t. Means x t) (sym (one_of b'<' v s)) (below (drop 1 v) a r m)

  -- A text of which a test holds says something true.
  matches_sound : (x : N) (v : Codes) → matches numbers x v ≡ true → Means x v
  unfolding matches
  matches_sound x v h = elim (either (v == numbers.show x) _ h) [
    | inl e ↦ subst (λ t. Means x t) (sym (eq_of_== v (numbers.show x) e)) printed
    | inr h₁ ↦ elim (either (test_at_least numbers x v) _ h₁) [
      | inl e ↦ at_least_sound x v e
      | inr h₂ ↦ elim (either (test_at_most numbers x v) _ h₂) [
        | inl e ↦ at_most_sound x v e
        | inr h₃ ↦ elim (either (test_above numbers x v) _ h₃) [
          | inl e ↦ above_sound x v e
          | inr h₄ ↦ elim (either (test_below numbers x v) _ h₄) [
            | inl e ↦ below_sound x v e
            | inr h₅ ↦ between_lem x v (range_match v) (range_match-IsRangeOf v) h₅
          ]
        ]
      ]
    ]
  ]

  at_least_complete :
      (x : N) (v : Codes) → test_at_least numbers x v ≡ true → matches numbers x v ≡ true
  unfolding matches
  at_least_complete x v h =
      second (v == numbers.show x) (test_at_least numbers x (v)) (test_at_most numbers x (v))
        (test_above numbers x (v)) (test_below numbers x (v))
        (is_between numbers x (range_match (v))) h

  at_most_complete :
      (x : N) (v : Codes) → test_at_most numbers x v ≡ true → matches numbers x v ≡ true
  unfolding matches
  at_most_complete x v h =
      third (v == numbers.show x) (test_at_least numbers x (v)) (test_at_most numbers x (v))
        (test_above numbers x (v)) (test_below numbers x (v))
        (is_between numbers x (range_match (v))) h

  above_complete : (x : N) (v : Codes) → test_above numbers x v ≡ true → matches numbers x v ≡ true
  unfolding matches
  above_complete x v h =
      fourth (v == numbers.show x) (test_at_least numbers x (v)) (test_at_most numbers x (v))
        (test_above numbers x (v)) (test_below numbers x (v))
        (is_between numbers x (range_match (v))) h

  below_complete : (x : N) (v : Codes) → test_below numbers x v ≡ true → matches numbers x v ≡ true
  unfolding matches
  below_complete x v h =
      fifth (v == numbers.show x) (test_at_least numbers x (v)) (test_at_most numbers x (v))
        (test_above numbers x (v)) (test_below numbers x (v))
        (is_between numbers x (range_match (v))) h

  between_complete :
      (x : N) (v : Codes) → is_between numbers x (range_match v) ≡ true → matches numbers x v ≡ true
  unfolding matches
  between_complete x v h =
      sixth (v == numbers.show x) (test_at_least numbers x (v)) (test_at_most numbers x (v))
        (test_above numbers x (v)) (test_below numbers x (v))
        (is_between numbers x (range_match (v))) h

  -- A test holds of a text that says something true.
  matches_complete : (x : N) (v : Codes) → Means x v → matches numbers x v ≡ true
  unfolding matches
  matches_complete x v printed = rw (==_refl (numbers.show x)) refl
  matches_complete x v (at_least s a r m) = at_least_complete x v (rw (r, m) refl)
  matches_complete x v (at_most s a r m) = at_most_complete x v (rw (r, m) refl)
  matches_complete x v (above s a r m) = above_complete x v (rw (r, m) refl)
  matches_complete x v (below s a r m) = below_complete x v (rw (r, m) refl)
  matches_complete x v (between _ lo hi a b i r r' m m') =
      between_complete x v (rw (range_holds v lo hi i, r, r', m, m') refl)

  first_match-IsFirst : (x : N) (ms : List ValueMapping) → IsFirst x ms (first_match numbers x ms)
  unfolding first_match
  first_match-IsFirst x [] = nothing
  first_match-IsFirst x (m ∷ ms) = elim (Bool-cases (matches numbers x (trim m.value))) [
    | inl h ↦ rw h (here (matches_sound x (trim m.value) h))
    | inr h ↦ rw h (
        there (λ t. absurd (cc (matches_complete x (trim m.value) t, h)))
          (first_match-IsFirst x ms))
  ]

  -- The mapping of a value is the first whose text, without the white space at its ends, is the printed value,
  -- or a comparison sign before a number that the value is to in that relation, or a range of two numbers that
  -- the value is between; it is none exactly if there is no such mapping.
  pub match_mapping-IsFirst :
      (x : N) (ms : List ValueMapping) → IsFirst x ms (match_mapping numbers (some x) ms)
  unfolding match_mapping
  match_mapping-IsFirst x ms = first_match-IsFirst x ms
