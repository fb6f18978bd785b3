-- ===== src/Base/Sorting.antt =====
-- `sort` of an array by a number, which keeps the order of what is equal.
use mathlib.Core.Path.{◌≡◌, refl, sym, ap, ◌∙◌}
use mathlib.Core.Logic.{inl, inr}
use mathlib.Core.Bool.{Bool, true, false}
use mathlib.Core.List.{List, [], ◌∷◌, Perm}
use mathlib.Core.List.Perm
use native.Mathlib.Omega.{arith}
use industry_dashboard.Base.Tests.{leb, if◌then◌else◌, Bool-cases}
use industry_dashboard.Base.Lists.{All}
use industry_dashboard.Base.Integers.{ℤ, pos, negsuc}

-- `a <= b`
unfoldable pub is_at_most : ℤ → ℤ → Bool
is_at_most (pos a) (pos b) = leb a b
is_at_most (pos a) (negsuc b) = false
is_at_most (negsuc a) (pos b) = true
is_at_most (negsuc a) (negsuc b) = leb b a

at_most_total : (a b : ℤ) → is_at_most a b ≡ false → is_at_most b a ≡ true
unfolding is_at_most
at_most_total (pos a) (pos b) h = ground (arith, h)
at_most_total (pos a) (negsuc b) h = refl
at_most_total (negsuc a) (pos b) h = cc
at_most_total (negsuc a) (negsuc b) h = ground (arith, h)

at_most_trans : (a b c : ℤ) → is_at_most a b ≡ true → is_at_most b c ≡ true → is_at_most a c ≡ true
unfolding is_at_most
at_most_trans (pos a) (pos b) (pos c) h k = ground (arith, h, k)
at_most_trans (pos a) (pos b) (negsuc c) h k = cc
at_most_trans (pos a) (negsuc b) c h k = cc
at_most_trans (negsuc a) (pos b) (pos c) h k = refl
at_most_trans (negsuc a) (pos b) (negsuc c) h k = cc
at_most_trans (negsuc a) (negsuc b) (pos c) h k = refl
at_most_trans (negsuc a) (negsuc b) (negsuc c) h k = ground (arith, h, k)

module _ {ℓ} {A : Type ℓ} (order : A → ℤ) where
  insert : A → List A → List A
  insert x [] = x ∷ []
  insert x (y ∷ ys) =
      let rest = insert x ys in if is_at_most (order x) (order y) then x ∷ (y ∷ ys) else y ∷ rest

  -- `xs.sort((a, b) => order(a) - order(b))`
  unfoldable pub sort_by : List A → List A
  unfolding insert
  sort_by [] = []
  sort_by (x ∷ xs) = insert x (sort_by xs)

  -- each element is at most every later one
  abbrev pub IsSorted : List A → Type 0
  IsSorted [] = Unit
  IsSorted (x ∷ xs) = All (λ y. is_at_most (order x) (order y) ≡ true) xs × IsSorted xs

  insert-perm : (x : A) (xs : List A) → Perm (insert x xs) (x ∷ xs)
  unfolding insert
  insert-perm x [] = Perm.refl _
  insert-perm x (y ∷ ys) = elim (Bool-cases (is_at_most (order x) (order y))) [
    | inl first ↦ rw first (Perm.refl _)
    | inr later ↦ rw later (Perm.trans (Perm.cons y (insert-perm x ys)) (Perm.swap x y ys))
  ]

  pub sort_by-perm : (xs : List A) → Perm (sort_by xs) xs
  unfolding sort_by
  sort_by-perm [] = Perm.refl _
  sort_by-perm (x ∷ xs) = Perm.trans (insert-perm x (sort_by xs)) (Perm.cons x (sort_by-perm xs))

  All-at_most :
      (a b : A) (xs : List A)
      → is_at_most (order a) (order b) ≡ true
      → All (λ y. is_at_most (order b) (order y) ≡ true) xs
      → All (λ y. is_at_most (order a) (order y) ≡ true) xs
  All-at_most a b [] h hs = tt
  All-at_most a b (x ∷ xs) h hs =
      (at_most_trans (order a) (order b) (order x) h hs.0, All-at_most a b xs h hs.1)

  All-insert : (P : A → Type 0) (x : A) (xs : List A) → P x → All P xs → All P (insert x xs)
  unfolding insert
  All-insert P x [] p h = (p, tt)
  All-insert P x (y ∷ ys) p h = elim (Bool-cases (is_at_most (order x) (order y))) [
    | inl first ↦ rw first (p, h)
    | inr later ↦ rw later (h.0, All-insert P x ys p h.1)
  ]

  insert-IsSorted : (x : A) (xs : List A) → IsSorted xs → IsSorted (insert x xs)
  unfolding insert
  insert-IsSorted x [] h = (tt, tt)
  insert-IsSorted x (y ∷ ys) h = elim (Bool-cases (is_at_most (order x) (order y))) [
    | inl first ↦ rw first ((first, All-at_most x y ys first h.0), h)
    | inr later ↦
        rw later (
          All-insert _ x ys (at_most_total (order x) (order y) later) h.0,
          insert-IsSorted x ys h.1,
        )
  ]

  pub sort_by-IsSorted : (xs : List A) → IsSorted (sort_by xs)
  unfolding sort_by
  sort_by-IsSorted [] = tt
  sort_by-IsSorted (x ∷ xs) = insert-IsSorted x (sort_by xs) (sort_by-IsSorted xs)

  -- the elements of a list may change places under a fold
  abbrev pub IsCommuting : {B : Type 0} → (A → B → B) → List A → Type 0
  IsCommuting g [] = Unit
  IsCommuting {B} g (x ∷ xs) = All (λ y. (b : B) → g x (g y b) ≡ g y (g x b)) xs × IsCommuting g xs

  insert-fold :
      {B : Type 0} (f : List A → B) (g : A → B → B) (x : A) (xs : List A)
      → ((y : A) (ys : List A) → f (y ∷ ys) ≡ g y (f ys))
      → All (λ y. (b : B) → g x (g y b) ≡ g y (g x b)) xs
      → f (insert x xs) ≡ g x (f xs)
  unfolding insert
  insert-fold f g x [] step h = step x []
  insert-fold f g x (y ∷ ys) step h = elim (Bool-cases (is_at_most (order x) (order y))) [
    | inl first ↦ rw first (step x (y ∷ ys))
    | inr later ↦ rw later (
        step y (insert x ys)
        ∙ ap (g y) (insert-fold f g x ys step h.1)
        ∙ sym (h.0 (f ys))
        ∙ ap (g x) (sym (step y ys)))
  ]

  All-sort_by : (P : A → Type 0) (xs : List A) → All P xs → All P (sort_by xs)
  unfolding sort_by
  All-sort_by P [] h = tt
  All-sort_by P (x ∷ xs) h = All-insert P x (sort_by xs) h.0 (All-sort_by P xs h.1)

  -- A fold under which the elements may change places is the same after sorting.
  pub sort_by-fold :
      {B : Type 0} (f : List A → B) (g : A → B → B) (xs : List A)
      → ((y : A) (ys : List A) → f (y ∷ ys) ≡ g y (f ys))
      → IsCommuting g xs
      → f (sort_by xs) ≡ f xs
  unfolding sort_by
  sort_by-fold f g [] step h = refl
  sort_by-fold f g (x ∷ xs) step h =
      insert-fold f g x (sort_by xs) step (All-sort_by _ xs h.0)
      ∙ ap (g x) (sort_by-fold f g xs step h.1)
      ∙ sym (step x xs)
