-- ===== src/WorkerConfig/Pattern/Derivative.antt =====
-- The test of a regular expression decides what it stands for.
use industry_dashboard.Base.{
  ℕ, ◌≡◌, ◌⊎◌, ◌↔◌, inl, inr, refl, sym, ap, ◌∙◌, subst, true, List, [], ◌∷◌, ◌++◌, All, Codes,
  arith, Bool-cases,
}
use industry_dashboard.WorkerConfig.Pattern.{
  Regex, fail, empty, class, seq, alt, star, nullable, derivative, test, concat, Matches,
}

append_eq_nil : (u v : Codes) → [] ≡ u ++ v → (u ≡ []) × (v ≡ [])
append_eq_nil [] v h = (refl, sym h)
append_eq_nil (c ∷ u) v h = absurd cc

nullable_sound : (r : Regex) → nullable r ≡ true → Matches r []
unfolding nullable Matches
nullable_sound fail h = cc
nullable_sound empty h = refl
nullable_sound (class p) h = cc
nullable_sound (seq r q) h =
    ([], [], refl, nullable_sound r (ground arith), nullable_sound q (ground arith))
nullable_sound (alt r q) h = elim (Bool-cases (nullable r)) [
  | inl yes_ ↦ inl (nullable_sound r yes_)
  | inr no_ ↦ inr (nullable_sound q (ground arith))
]
nullable_sound (star r) h = ([], refl, tt)

nullable_complete : (r : Regex) → Matches r [] → nullable r ≡ true
unfolding nullable Matches
nullable_complete fail m = absurd m
nullable_complete empty m = refl
nullable_complete (class p) (c, e, h) = cc
nullable_complete (seq r q) (u, v, e, mr, mq) =
    let (eu, ev) = append_eq_nil u v e in
    let hr = nullable_complete r (subst (Matches r) eu mr) in
    let hq = nullable_complete q (subst (Matches q) ev mq) in ground (arith, hr, hq)
nullable_complete (alt r q) (inl m) = let h = nullable_complete r m in ground (arith, h)
nullable_complete (alt r q) (inr m) = let h = nullable_complete q m in ground (arith, h)
nullable_complete (star r) m = refl

-- Forwards: what the derivative matches, with the character in front.
derivative_sound : (c : ℕ) (r : Regex) (s : Codes) → Matches (derivative c r) s → Matches r (c ∷ s)
unfolding derivative Matches
derivative_sound c fail s m = absurd m
derivative_sound c empty s m = absurd m
derivative_sound c (class p) s m = elim (Bool-cases (p c)) [
  | inl yes_ ↦ let e : s ≡ [] = rw yes_ at m in (c, ap (λ l. c ∷ l) e, yes_)
  | inr no_ ↦ absurd (rw no_ at m)
]
derivative_sound c (seq r q) s m =
    let first : Matches (seq (derivative c r) q) s → Matches (seq r q) (c ∷ s) =
      λ m'. (c ∷ m'.0, m'.1, ap (λ l. c ∷ l) m'.2, derivative_sound c r m'.0 m'.3, m'.4) in
    elim (Bool-cases (nullable r)) [
      | inl yes_ ↦
          let m' : Matches (seq (derivative c r) q) s ⊎ Matches (derivative c q) s = rw yes_ at m in
          elim m' [
            | inl a ↦ first a
            | inr mq ↦ ([], c ∷ s, refl, nullable_sound r yes_, derivative_sound c q s mq)
          ]
      | inr no_ ↦ first (rw no_ at m)
    ]
derivative_sound c (alt r q) s (inl m) = inl (derivative_sound c r s m)
derivative_sound c (alt r q) s (inr m) = inr (derivative_sound c q s m)
derivative_sound c (star r) s (u, v, e, mr, (ss, es, ms)) =
    ((c ∷ u) ∷ ss, ap (λ l. c ∷ l) (e ∙ ap (λ w. u ++ w) es), (derivative_sound c r u mr, ms))

-- Backwards, for a sequence of texts that together begin with the character: the first one that is
-- not empty begins with it.
star_complete :
    (c : ℕ) (r : Regex)
    → ((s : Codes) → Matches r (c ∷ s) → Matches (derivative c r) s)
    → (s : Codes) (ss : List Codes) → c ∷ s ≡ concat ss
    → All (Matches r) ss
    → Matches (seq (derivative c r) (star r)) s
unfolding Matches
star_complete c r ih s [] e ms = absurd cc
star_complete c r ih s ([] ∷ ss) e ms = star_complete c r ih s ss e ms.1
star_complete c r ih s ((d ∷ u) ∷ ss) e ms =
    let d≡ : d ≡ c = cc in
    let s≡ : s ≡ u ++ concat ss = cc in
    (u, concat ss, s≡, ih u (subst (λ x. Matches r (x ∷ u)) d≡ ms.0), (ss, refl, ms.1))

-- The same for two texts.
seq_complete :
    (c : ℕ) (r q : Regex)
    → ((s : Codes) → Matches r (c ∷ s) → Matches (derivative c r) s)
    → ((s : Codes) → Matches q (c ∷ s) → Matches (derivative c q) s)
    → (s u v : Codes) → c ∷ s ≡ u ++ v
    → Matches r u
    → Matches q v
    → Matches (derivative c (seq r q)) s
unfolding derivative Matches
seq_complete c r q ih_r ih_q s [] v e mr mq =
    rw (nullable_complete r mr) (inr (ih_q s (subst (Matches q) (sym e) mq)))
seq_complete c r q ih_r ih_q s (d ∷ u) v e mr mq =
    let d≡ : d ≡ c = cc in
    let s≡ : s ≡ u ++ v = cc in
    let first : Matches (seq (derivative c r) q) s =
      (u, v, s≡, ih_r u (subst (λ x. Matches r (x ∷ u)) d≡ mr), mq) in
    elim (Bool-cases (nullable r)) [ inl yes_ ↦ rw yes_ (inl first) | inr no_ ↦ rw no_ first ]

derivative_complete :
    (c : ℕ) (r : Regex) (s : Codes) → Matches r (c ∷ s) → Matches (derivative c r) s
unfolding derivative Matches
derivative_complete c fail s m = absurd m
derivative_complete c empty s m = absurd cc
derivative_complete c (class p) s (d, e, h) =
    let d≡ : d ≡ c = cc in let s≡ : s ≡ [] = cc in rw (subst (λ x. p x ≡ true) d≡ h) s≡
derivative_complete c (seq r q) s (u, v, e, mr, mq) =
    seq_complete c r q (derivative_complete c r) (derivative_complete c q) s u v e mr mq
derivative_complete c (alt r q) s (inl m) = inl (derivative_complete c r s m)
derivative_complete c (alt r q) s (inr m) = inr (derivative_complete c q s m)
derivative_complete c (star r) s (ss, e, ms) = star_complete c r (derivative_complete c r) s ss e ms

-- A text passes the test exactly if the expression matches it.
pub test_iff : (r : Regex) (s : Codes) → (test r s ≡ true) ↔ Matches r s
unfolding test
test_iff r [] = (nullable_sound r, nullable_complete r)
test_iff r (c ∷ s) = (
  λ h. derivative_sound c r s ((test_iff (derivative c r) s).0 h),
  λ m. (test_iff (derivative c r) s).1 (derivative_complete c r s m),
)
