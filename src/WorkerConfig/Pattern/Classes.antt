-- ===== src/WorkerConfig/Pattern/Classes.antt =====
-- What an expression over sets of characters says of every character of its texts.
use industry_dashboard.Base.{
  ℕ, ◌≡◌, ◌↔◌, inl, inr, refl, ap, ◌∙◌, Bool, true, ◌&&◌, List, [], ◌∷◌, ◌++◌, map, All, all, Codes,
  arith,
}
use industry_dashboard.WorkerConfig.Pattern.{
  Regex, fail, empty, class, seq, alt, star, plus, concat, Matches,
}

all-append : (p : ℕ → Bool) (u v : Codes) → all p (u ++ v) ≡ (all p u && all p v)
all-append p [] v = refl
all-append p (c ∷ u) v = ground (arith, all-append p u v)

-- Every set of the expression lies in the set `p`.
unfoldable pub Only : (ℕ → Bool) → Regex → Type 0
Only p fail = Unit
Only p empty = Unit
Only p (class q) = (c : ℕ) → q c ≡ true → p c ≡ true
Only p (seq r q) = Only p r × Only p q
Only p (alt r q) = Only p r × Only p q
Only p (star r) = Only p r

all-concat :
    (p : ℕ → Bool) (r : Regex)
    → ((s : Codes) → Matches r s → all p s ≡ true)
    → (ss : List Codes) → All (Matches r) ss
    → all p (concat ss) ≡ true
all-concat p r ih [] ms = refl
all-concat p r ih (s ∷ ss) ms =
    ground (arith, all-append p s (concat ss), ih s ms.0, all-concat p r ih ss ms.1)

pub all_of_Only : (p : ℕ → Bool) (r : Regex) → Only p r → (s : Codes) → Matches r s → all p s ≡ true
unfolding Only Matches
all_of_Only p fail o s m = absurd m
all_of_Only p empty o s m = rw m refl
all_of_Only p (class q) o s (c, e, h) = rw e (ground (arith, o c h))
all_of_Only p (seq r q) o s (u, v, e, mr, mq) =
    rw e (ground (arith, all-append p u v, all_of_Only p r o.0 u mr, all_of_Only p q o.1 v mq))
all_of_Only p (alt r q) o s (inl m) = all_of_Only p r o.0 s m
all_of_Only p (alt r q) o s (inr m) = all_of_Only p q o.1 s m
all_of_Only p (star r) o s (ss, e, ms) = rw e (all-concat p r (all_of_Only p r o) ss ms)

concat-singles : (s : Codes) → s ≡ concat (map (λ c. c ∷ []) s)
concat-singles [] = refl
concat-singles (c ∷ s) = ap (λ l. c ∷ l) (concat-singles s)

singles_match :
    (p : ℕ → Bool) (s : Codes) → all p s ≡ true → All (Matches (class p)) (map (λ c. c ∷ []) s)
unfolding Matches
singles_match p [] h = tt
singles_match p (c ∷ s) h = ((c, refl, ground arith), singles_match p s (ground arith))

-- `[...]*` stands for the texts whose characters are all in the set.
pub star_class_iff : (p : ℕ → Bool) (s : Codes) → Matches (star (class p)) s ↔ (all p s ≡ true)
unfolding Matches Only
star_class_iff p s = (
  all_of_Only p (star (class p)) (λ c h. h) s,
  λ h. (map (λ c. c ∷ []) s, concat-singles s, singles_match p s h),
)

-- `[...]+`
pub plus_class :
    (p : ℕ → Bool) (s : Codes)
    → Matches (plus (class p)) s
    → (c : ℕ) × (u : Codes) × (s ≡ c ∷ u) × (all p (c ∷ u) ≡ true)
unfolding Matches
plus_class p s (v, u, e, (c, ev, h), m) =
    let hu = (star_class_iff p u).0 m in (c, u, e ∙ ap (λ x. x ++ u) ev, ground (arith, h, hu))

-- The expression begins with a set of characters that lies in the set `p`.
unfoldable pub StartsIn : (ℕ → Bool) → Regex → Type 0
StartsIn p (class q) = (c : ℕ) → q c ≡ true → p c ≡ true
StartsIn p (seq r q) = StartsIn p r
StartsIn p _ = ⊥

pub first_of_StartsIn :
    (p : ℕ → Bool) (r : Regex)
    → StartsIn p r
    → (s : Codes) → Matches r s
    → (c : ℕ) × (u : Codes) × (s ≡ c ∷ u) × (p c ≡ true)
unfolding StartsIn Matches
first_of_StartsIn p (class q) o s (c, e, h) = (c, [], e, o c h)
first_of_StartsIn p (seq r q) o s (u, v, e, mr, mq) =
    let (c, w, eu, h) = first_of_StartsIn p r o u mr in (c, w ++ v, e ∙ ap (λ x. x ++ v) eu, h)
first_of_StartsIn p fail o s m = absurd o
first_of_StartsIn p empty o s m = absurd o
first_of_StartsIn p (alt r q) o s m = absurd o
first_of_StartsIn p (star r) o s m = absurd o
