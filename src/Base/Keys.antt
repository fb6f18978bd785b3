-- ===== src/Base/Keys.antt =====
-- Collections by key: `includes`, removal and the toggle of a selection, over any type with `===`.
use industry_dashboard.Base.Equality.{Eq, ◌==◌}
use industry_dashboard.Base.Tests.{if◌then◌else◌}
use industry_dashboard.Base.Lists.{filter, any}
use mathlib.Core.Path.{◌≡◌, refl}
use mathlib.Core.Bool.{Bool, false, not, ◌||◌}
use mathlib.Core.List.{List, [], ◌∷◌, ◌++◌}
use native.Mathlib.Omega.{arith}

module _ {ℓ} {K : Type ℓ} ⦃e : Eq K⦄ where
  -- `keys.includes(k)`, and `has` of a `Set`
  abbrev pub includes : K → List K → Bool
  includes k xs = any (λ x. x == k) xs

  -- `keys.filter((x) => x !== k)`, and `delete` of a `Set`
  abbrev pub remove : K → List K → List K
  remove k xs = filter (λ x. not (x == k)) xs

  -- A key that is in goes out, one that is out comes in at the end.
  unfoldable pub toggle : K → List K → List K
  toggle k xs = if includes k xs then remove k xs else xs ++ k ∷ []

  -- No key stands twice.
  abbrev pub Distinct : List K → Type 0
  Distinct [] = Unit
  Distinct (x ∷ xs) = (includes x xs ≡ false) × Distinct xs

module _ {ℓ} {K : Type ℓ} ⦃e : Eq K⦄ where
  pub includes-remove :
      (j k : K) (xs : List K) → includes j (remove k xs) ≡ (if j == k then false else includes j xs)
  includes-remove j k [] = ground arith
  includes-remove j k (x ∷ xs) =
      ground (arith, includes-remove j k xs, e.same_iff x j, e.same_iff x k, e.same_iff j k)

  pub includes-append :
      (j : K) (xs ys : List K) → includes j (xs ++ ys) ≡ (includes j xs || includes j ys)
  includes-append j [] ys = refl
  includes-append j (x ∷ xs) ys = ground (arith, includes-append j xs ys)

  -- Membership after a toggle: the toggled key changes sides, every other key stays.
  pub includes-toggle :
      (j k : K) (xs : List K)
      → includes j (toggle k xs) ≡ (if j == k then not (includes j xs) else includes j xs)
  unfolding toggle
  includes-toggle j k xs =
      ground (
        arith,
        includes-remove j k xs,
        includes-append j xs (k ∷ []),
        e.same_iff j k,
        e.same_iff k j,
      )

  pub Distinct-remove : (k : K) (xs : List K) → Distinct xs → Distinct (remove k xs)
  Distinct-remove k [] d = tt
  Distinct-remove k (x ∷ xs) d = ground (arith, Distinct-remove k xs, includes-remove x k xs)

  pub Distinct-snoc :
      (k : K) (xs : List K) → includes k xs ≡ false → Distinct xs → Distinct (xs ++ k ∷ [])
  Distinct-snoc k [] h d = ground arith
  Distinct-snoc k (x ∷ xs) h d =
      ground
        (arith, Distinct-snoc k xs, includes-append x xs (k ∷ []), e.same_iff x k, e.same_iff k x)

  pub Distinct-toggle : (k : K) (xs : List K) → Distinct xs → Distinct (toggle k xs)
  unfolding toggle
  Distinct-toggle k xs d = ground (arith, Distinct-remove k xs d, Distinct-snoc k xs)
