-- ===== src/Base/Lists.antt =====
-- JavaScript's array methods on lists: the callbacks are functions into `Bool`, the indices are
-- native numbers.
use Prim.Native.Nat.{ℕ, zero, suc, ◌+◌, ◌≤◌}
use mathlib.Core.Path.{◌≡◌, refl, ap}
use mathlib.Core.Bool.{Bool, true, false, ◌&&◌, ◌||◌}
use mathlib.Core.Logic.{◌≢◌, ◌↔◌, inl, inr}
use mathlib.Core.List.{List, [], ◌∷◌, ◌++◌, map}
use mathlib.Core.Option.{Option, none, some}
use native.Mathlib.Omega.{arith}
use industry_dashboard.Base.Equality.{◌==◌, nat_eq}
use industry_dashboard.Base.Tests.{if◌then◌else◌, Bool-cases}

module _ {ℓ} {A : Type ℓ} where
  abbrev pub length : List A → ℕ
  length [] = 0
  length (x ∷ xs) = suc (length xs)

  -- `xs[i]`; `none` is `undefined`
  abbrev pub get_elem? : List A → ℕ → Option A
  get_elem? [] i = none
  get_elem? (x ∷ xs) zero = some x
  get_elem? (x ∷ xs) (suc i) = get_elem? xs i

  -- `xs.slice(0, n)`
  abbrev pub take : ℕ → List A → List A
  take zero xs = []
  take (suc n) [] = []
  take (suc n) (x ∷ xs) = x ∷ take n xs

  abbrev pub drop : ℕ → List A → List A
  drop zero xs = xs
  drop (suc n) [] = []
  drop (suc n) (x ∷ xs) = drop n xs

  abbrev pub filter : (A → Bool) → List A → List A
  filter p [] = []
  filter p (x ∷ xs) = let rest = filter p xs in if p x then x ∷ rest else rest

  -- `xs.some(p)`
  abbrev pub any : (A → Bool) → List A → Bool
  any p [] = false
  any p (x ∷ xs) = p x || any p xs

  -- `xs.every(p)`
  abbrev pub all : (A → Bool) → List A → Bool
  all p [] = true
  all p (x ∷ xs) = p x && all p xs

  -- `none` is `undefined`
  abbrev pub find? : (A → Bool) → List A → Option A
  find? p [] = none
  find? p (x ∷ xs) = let rest = find? p xs in if p x then some x else rest

  abbrev pub All {κ} : (A → Type κ) → List A → Type κ
  All P [] = Unit
  All P (x ∷ xs) = P x × All P xs

module _ {ℓ} {A : Type ℓ} where
  pub length-append : (xs ys : List A) → length (xs ++ ys) ≡ length xs + length ys
  length-append [] ys = omega arith
  length-append (x ∷ xs) ys = omega (arith, length-append xs ys)

  pub length-filter-le : (p : A → Bool) (xs : List A) → length (filter p xs) ≤ length xs
  length-filter-le p [] = omega arith
  length-filter-le p (x ∷ xs) = ground (arith, length-filter-le p xs)

  pub filter-append :
      (p : A → Bool) (xs ys : List A) → filter p (xs ++ ys) ≡ filter p xs ++ filter p ys
  filter-append p [] ys = refl
  filter-append p (x ∷ xs) ys = ground (arith, filter-append p xs ys)

  pub any-append : (p : A → Bool) (xs ys : List A) → any p (xs ++ ys) ≡ (any p xs || any p ys)
  any-append p [] ys = refl
  any-append p (x ∷ xs) ys = ground (arith, any-append p xs ys)

  pub any_snoc :
      (p : A → Bool) (xs : List A) (x : A) → any p xs ≡ true → any p (xs ++ x ∷ []) ≡ true
  any_snoc p xs x h = rw (any-append p xs (x ∷ []), h) refl

  pub any_last : (p : A → Bool) (xs : List A) (x : A) → p x ≡ true → any p (xs ++ x ∷ []) ≡ true
  any_last p xs x h = ground (arith, any-append p xs (x ∷ []), h)

  -- What a filter keeps satisfies its test.
  pub all-filter : (p : A → Bool) (xs : List A) → all p (filter p xs) ≡ true
  all-filter p [] = refl
  all-filter p (x ∷ xs) = ground (arith, all-filter p xs)

  -- A filter that every element passes changes nothing.
  pub filter_of_all : (p : A → Bool) (xs : List A) → all p xs ≡ true → filter p xs ≡ xs
  filter_of_all p [] h = refl
  filter_of_all p (x ∷ xs) h = ground (arith, filter_of_all p xs)

  pub find?-append :
      (p : A → Bool) (xs ys : List A) → any p xs ≡ false → find? p (xs ++ ys) ≡ find? p ys
  find?-append p [] ys h = refl
  find?-append p (x ∷ xs) ys h = ground (arith, find?-append p xs ys)

  pub find?_sound : (p : A → Bool) (xs : List A) {a : A} → find? p xs ≡ some a → p a ≡ true
  find?_sound p [] h = cc
  find?_sound p (x ∷ xs) {a} h = elim (Bool-cases (p x)) [
    | inl yes_x ↦ ground arith
    | inr no_x ↦ find?_sound p xs (ground arith)
  ]

  pub length-map {κ} : {B : Type κ} (f : A → B) (xs : List A) → length (map f xs) ≡ length xs
  length-map f [] = refl
  length-map f (x ∷ xs) = ap suc (length-map f xs)

  pub any-filter-le :
      (p q : A → Bool) (xs : List A) → any p xs ≡ false → any p (filter q xs) ≡ false
  any-filter-le p q [] h = refl
  any-filter-le p q (x ∷ xs) h = ground (arith, any-filter-le p q xs)

  pub take-append-drop : (n : ℕ) (xs : List A) → take n xs ++ drop n xs ≡ xs
  take-append-drop zero xs = refl
  take-append-drop (suc n) [] = refl
  take-append-drop (suc n) (x ∷ xs) = rw (take-append-drop n xs)

  pub get_elem?-map {κ} :
      {B : Type κ} (f : A → B) (xs : List A) (i : ℕ) {a : A}
      → get_elem? xs i ≡ some a
      → get_elem? (map f xs) i ≡ some (f a)
  get_elem?-map f [] i h = cc
  get_elem?-map f (x ∷ xs) zero h = cc
  get_elem?-map f (x ∷ xs) (suc i) h = get_elem?-map f xs i h

  pub no_elements : (xs : List A) → (length xs == 0) ≡ true → xs ≡ []
  no_elements [] h = refl
  no_elements (x ∷ xs) h = ground arith

  pub some_elements_iff : (xs : List A) → ((length xs == 0) ≡ false) ↔ (xs ≢ [])
  some_elements_iff [] = (λ h. absurd cc, λ h. absurd (h refl))
  some_elements_iff (x ∷ xs) = (λ h. cc, λ h. ground arith)

  pub find?_complete :
      (p : A → Bool) (xs : List A)
      → any p xs ≡ true
      → (a : A) × (find? p xs ≡ some a) × (p a ≡ true)
  find?_complete p [] h = absurd cc
  find?_complete p (x ∷ xs) h = elim (Bool-cases (p x)) [
    | inl yes_x ↦ (x, ground arith, yes_x)
    | inr no_x ↦
        let (a, e, ha) = find?_complete p xs (ground arith) in (a, ground (arith, no_x, e), ha)
  ]
