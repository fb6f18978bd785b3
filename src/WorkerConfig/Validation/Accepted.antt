-- ===== src/WorkerConfig/Validation/Accepted.antt =====
-- What the validation accepts.
use industry_dashboard.Base.{
  ℕ, ◌≡◌, ◌≢◌, ◌↔◌, inl, inr, refl, ap, ◌∙◌, subst, true, [], ◌∷◌, ◌++◌, all, Codes, trim, ◌==◌,
  nat_eq, arith, Bool-cases,
}
use industry_dashboard.WorkerConfig.Pattern.{test, Matches}
use industry_dashboard.WorkerConfig.Pattern.Derivative.{test_iff}
use industry_dashboard.WorkerConfig.Pattern.Classes.{
  Only, StartsIn, first_of_StartsIn, all_of_Only, star_class_iff, plus_class,
}
use industry_dashboard.WorkerConfig.Validation.{
  is_digit, is_unit, is_alnum, is_host_char, poll_pattern, ip_part, ip_pattern, host_pattern,
  is_valid_poll_interval, is_valid_host,
}

-- One digit or more, then one of the letters s, m and h.
abbrev pub IsInterval : Codes → Type 0
IsInterval s =
    (digits : Codes) × (unit : ℕ) × (s ≡ digits ++ unit ∷ [])
    × (digits ≢ [])
    × (all is_digit digits ≡ true)
    × (is_unit unit ≡ true)

-- A letter or a digit, then letters, digits, points, underscores and dashes.
abbrev pub IsHostName : Codes → Type 0
IsHostName v =
    (c : ℕ) × (s : Codes) × (v ≡ c ∷ s) × (is_alnum c ≡ true) × (all is_host_char s ≡ true)

poll_sound : (s : Codes) → Matches poll_pattern s → IsInterval s
unfolding Matches
poll_sound s (u, v, e, mu, (c, ev, hc)) =
    let (d, w, eu, hw) = plus_class is_digit u mu in
    (u, c, e ∙ ap (λ x. u ++ x) ev, (λ nil. absurd cc), rw eu hw, hc)

poll_complete : (s : Codes) → IsInterval s → Matches poll_pattern s
unfolding Matches
poll_complete s ([], c, e, some_, hd, hc) = absurd (some_ refl)
poll_complete s (d ∷ ds, c, e, some_, hd, hc) = (
  d ∷ ds,
  c ∷ [],
  e,
  (d ∷ [], ds, refl, (d, refl, ground arith), (star_class_iff is_digit ds).1 (ground arith)),
  (c, refl, hc),
)

-- A polling interval is accepted exactly if, without the white space at its ends, it is one digit or
-- more and then one of the letters s, m and h.
pub is_valid_poll_interval_iff :
    (v : Codes) → (is_valid_poll_interval v ≡ true) ↔ IsInterval (trim v)
unfolding is_valid_poll_interval
is_valid_poll_interval_iff v = (
  λ h. poll_sound (trim v) ((test_iff poll_pattern (trim v)).0 h),
  λ m. (test_iff poll_pattern (trim v)).1 (poll_complete (trim v) m),
)

host_iff : (v : Codes) → Matches host_pattern v ↔ IsHostName v
unfolding Matches
host_iff v = (
  λ (u, w, e, (c, eu, hc), m).
      (c, w, e ∙ ap (λ x. x ++ w) eu, hc, (star_class_iff is_host_char w).0 m),
  λ (c, s, e, hc, hs). (c ∷ [], s, e, (c, refl, hc), (star_class_iff is_host_char s).1 hs),
)

-- The first character of an address of four numbers is a digit, and all are characters of a name.
digit-host_char : (c : ℕ) → is_digit c ≡ true → is_host_char c ≡ true
digit-host_char c h = ground arith

point-host_char : (c : ℕ) → (c == b'.') ≡ true → is_host_char c ≡ true
point-host_char c h = ground arith

ip_Only : Only is_host_char ip_pattern
unfolding Only
ip_Only =
    let d = digit-host_char in
    let part : Only is_host_char ip_part = (d, ((d, tt), (d, tt))) in
    ((((part, point-host_char), ((part, point-host_char), (part, point-host_char)))), part)

ip_IsHostName : (v : Codes) → Matches ip_pattern v → IsHostName v
unfolding StartsIn
ip_IsHostName v m =
    let (c, s, e, hc) = first_of_StartsIn is_alnum ip_pattern (λ c h. ground arith) v m in
    let h : all is_host_char (c ∷ s) ≡ true =
      subst (λ x. all is_host_char x ≡ true) e (all_of_Only is_host_char ip_pattern ip_Only v m) in
    (c, s, e, hc, ground (arith, h))

-- A host is accepted exactly if it is a name: a letter or a digit, then letters, digits, points,
-- underscores and dashes. The expression for addresses of four numbers accepts nothing else.
pub is_valid_host_iff : (v : Codes) → (is_valid_host v ≡ true) ↔ IsHostName v
unfolding is_valid_host
is_valid_host_iff [] = (λ h. absurd cc, λ (c, s, e, hc, hs). absurd cc)
is_valid_host_iff (c ∷ s) = (
  λ h. elim (Bool-cases (test ip_pattern (c ∷ s))) [
    | inl ip ↦ ip_IsHostName (c ∷ s) ((test_iff ip_pattern (c ∷ s)).0 ip)
    | inr no_ip ↦
        (host_iff (c ∷ s)).0 ((test_iff host_pattern (c ∷ s)).0 (ground (arith, h, no_ip)))
  ],
  λ m. ground (arith, (test_iff host_pattern (c ∷ s)).1 ((host_iff (c ∷ s)).1 m)),
)
