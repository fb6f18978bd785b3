-- ===== src/Base/Indexed.antt =====
-- `filter` and `map` with a callback that reads the index, as the form handlers use them.
use industry_dashboard.Base.Equality.{◌==◌, nat_eq}
use industry_dashboard.Base.Tests.{if◌then◌else◌}
use industry_dashboard.Base.Lists.{length, get_elem?, take, drop}
use Prim.Native.Nat.{ℕ, zero, suc, ◌+◌, ◌<◌}
use mathlib.Core.Path.{◌≡◌, refl, ap}
use mathlib.Core.List.{List, [], ◌∷◌, ◌++◌}
use mathlib.Core.Option
use mathlib.Core.Option.{Option, none, some}
use native.Mathlib.Omega.{arith}

module _ {ℓ} {A : Type ℓ} where
  remove_from : ℕ → ℕ → List A → List A
  remove_from i index [] = []
  remove_from i index (x ∷ xs) =
      let rest = remove_from (suc i) index xs in if i == index then rest else x ∷ rest

  -- `xs.filter((_, i) => i !== index)`
  unfoldable pub remove_at : ℕ → List A → List A
  unfolding remove_from
  remove_at index xs = remove_from 0 index xs

  modify_from : ℕ → ℕ → (A → A) → List A → List A
  modify_from i index f [] = []
  modify_from i index f (x ∷ xs) = (if i == index then f x else x) ∷ modify_from (suc i) index f xs

  -- `xs.map((x, i) => i === index ? f(x) : x)`
  unfoldable pub modify_at : ℕ → (A → A) → List A → List A
  unfolding modify_from
  modify_at index f xs = modify_from 0 index f xs

module _ {ℓ} {A : Type ℓ} where
  remove_from_past : (i index : ℕ) (xs : List A) → index < i → remove_from i index xs ≡ xs
  unfolding remove_from
  remove_from_past i index [] h = refl
  remove_from_past i index (x ∷ xs) h = ground (arith, remove_from_past (suc i) index xs)

  remove_from_lem :
      (i k : ℕ) (xs : List A) → remove_from i (i + k) xs ≡ take k xs ++ drop (suc k) xs
  unfolding remove_from
  remove_from_lem i zero [] = refl
  remove_from_lem i (suc k) [] = refl
  remove_from_lem i zero (x ∷ xs) = ground (arith, remove_from_past (suc i) (i + zero) xs)
  remove_from_lem i (suc k) (x ∷ xs) =
      let e : i + suc k ≡ suc i + k = omega arith in
      rw e (ground (arith, remove_from_lem (suc i) k xs))

  -- The elements before the index, then those behind it.
  pub remove_at_lem :
      (index : ℕ) (xs : List A) → remove_at index xs ≡ take index xs ++ drop (suc index) xs
  unfolding remove_at
  remove_at_lem index xs =
      let e : 0 + index ≡ index = omega arith in rw e at (remove_from_lem 0 index xs)

  modify_from_past :
      (i index : ℕ) (f : A → A) (xs : List A) → index < i → modify_from i index f xs ≡ xs
  unfolding modify_from
  modify_from_past i index f [] h = refl
  modify_from_past i index f (x ∷ xs) h = ground (arith, modify_from_past (suc i) index f xs)

  get_elem?-modify_from :
      (i k j : ℕ) (f : A → A) (xs : List A)
      → get_elem? (modify_from i (i + k) f xs) j
        ≡ (if j == k then Option.map f (get_elem? xs j) else get_elem? xs j)
  unfolding modify_from
  get_elem?-modify_from i k j f [] = ground arith
  get_elem?-modify_from i zero zero f (x ∷ xs) = ground arith
  get_elem?-modify_from i (suc k) zero f (x ∷ xs) = ground arith
  get_elem?-modify_from i zero (suc j) f (x ∷ xs) =
      rw (modify_from_past (suc i) (i + 0) f xs (omega arith)) (ground arith)
  get_elem?-modify_from i (suc k) (suc j) f (x ∷ xs) =
      let e : i + suc k ≡ suc i + k = omega arith in
      rw e (ground (arith, get_elem?-modify_from (suc i) k j f xs))

  length-modify_from :
      (i index : ℕ) (f : A → A) (xs : List A) → length (modify_from i index f xs) ≡ length xs
  unfolding modify_from
  length-modify_from i index f [] = refl
  length-modify_from i index f (x ∷ xs) = ap suc (length-modify_from (suc i) index f xs)

  -- One element is rewritten, the others stay in their places.
  pub get_elem?-modify_at :
      (index j : ℕ) (f : A → A) (xs : List A)
      → get_elem? (modify_at index f xs) j
        ≡ (if j == index then Option.map f (get_elem? xs j) else get_elem? xs j)
  unfolding modify_at
  get_elem?-modify_at index j f xs =
      let e : 0 + index ≡ index = omega arith in rw e at (get_elem?-modify_from 0 index j f xs)

  pub length-modify_at :
      (index : ℕ) (f : A → A) (xs : List A) → length (modify_at index f xs) ≡ length xs
  unfolding modify_at
  length-modify_at index f xs = length-modify_from 0 index f xs
