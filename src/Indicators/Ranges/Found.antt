-- ===== src/Indicators/Ranges/Found.antt =====
-- What the expression for a range in `matchMapping` of frontend/src/components/widgets/IndicatorWidget.tsx finds.
use industry_dashboard.Base.{
  ◌≡◌, refl, sym, ap, subst, ◌∙◌, inl, inr, Bool, true, false, not, ◌&&◌, [], ◌∷◌, ◌++◌,
  append_assoc, append-nil, Option, none, some, Codes, all, is_empty, is_space, ◌==◌, nat_eq,
  eq_of_==, Bool-cases,
}
use industry_dashboard.Settings.Decimal.{is_digit}
use industry_dashboard.Indicators.Ranges.{
  take_digits, skip_space, with_fraction, unsigned, with_minus, take_number, at_end, after_dash,
  after_number, range_match, IsDigits, IsNumber, whole, fraction, negative, negative_fraction, both,
}

-- A text splits into the digits that are taken and what follows.
take_digits_lem :
    (s : Codes)
    → ((take_digits s).0 ++ (take_digits s).1 ≡ s) × (all is_digit (take_digits s).0 ≡ true)
unfolding take_digits
take_digits_lem [] = (refl, refl)
take_digits_lem (c ∷ s) = elim (Bool-cases (is_digit c)) [
  | inl h ↦ let (e, a) = take_digits_lem s in rw (h) (ap (λ l. c ∷ l) e, rw (h, a) refl)
  | inr h ↦ rw h (refl, refl)
]

data IsUnsigned : Codes → Type 0 where
  plain : (ds : Codes) → IsDigits ds → IsUnsigned ds
  pointed : (ds fs : Codes) → IsDigits ds → IsDigits fs → IsUnsigned (ds ++ (b'.' ∷ fs))

IsUnsigned-IsNumber : {n : Codes} → IsUnsigned n → IsNumber n
IsUnsigned-IsNumber (plain ds h) = whole ds h
IsUnsigned-IsNumber (pointed ds fs h k) = fraction ds fs h k

minus-IsNumber : {n : Codes} → IsUnsigned n → IsNumber (b'-' ∷ n)
minus-IsNumber (plain ds h) = negative ds h
minus-IsNumber (pointed ds fs h k) = negative_fraction ds fs h k

-- A text is what was taken of it and the rest, where something was taken.
abbrev Taken : (Codes → Type 0) → Codes → Option (Codes × Codes) → Type 0
Taken P s none = Unit
Taken P s (some (n, rest)) = P n × (n ++ rest ≡ s)

not_empty : (b : Bool) → not b ≡ true → b ≡ false
not_empty true h = cc
not_empty false h = refl

with_fraction_lem :
    (ds s : Codes) → IsDigits ds → Taken IsUnsigned (ds ++ s) (some (with_fraction ds s))
unfolding with_fraction
with_fraction_lem ds [] h = (plain ds h, refl)
with_fraction_lem ds (c ∷ s) h = elim (Bool-cases (c == b'.' && not (is_empty (take_digits s).0))) [
  | inl e ↦
      let (point, given) = both (c == b'.') (not (is_empty (take_digits s).0)) e in
      let (split, digits) = take_digits_lem s in
      let c_eq : c ≡ b'.' = eq_of_== c b'.' point in
      rw e (
        subst (λ d. IsUnsigned (ds ++ (d ∷ (take_digits s).0))) (sym c_eq)
            (pointed ds (take_digits s).0 h (digits, not_empty (is_empty (take_digits s).0) given)),
        append_assoc ds (c ∷ (take_digits s).0) (take_digits s).1 ∙ ap (λ l. ds ++ (c ∷ l)) split,
      )
  | inr e ↦ rw e (plain ds h, refl)
]

unsigned_lem : (s : Codes) → Taken IsUnsigned s (unsigned s)
unfolding unsigned
unsigned_lem s = elim (Bool-cases (is_empty (take_digits s).0)) [
  | inl h ↦ rw h tt
  | inr h ↦
      let (split, digits) = take_digits_lem s in
      let (p, e) = with_fraction_lem (take_digits s).0 (take_digits s).1 (digits, h) in
      rw h (p, e ∙ split)
]

Taken-IsNumber :
    (s : Codes) (o : Option (Codes × Codes)) → Taken IsUnsigned s o → Taken IsNumber s o
Taken-IsNumber s none h = tt
Taken-IsNumber s (some (n, rest)) (p, e) = (IsUnsigned-IsNumber p, e)

with_minus_lem :
    (s : Codes) (o : Option (Codes × Codes))
    → Taken IsUnsigned s o
    → Taken IsNumber (b'-' ∷ s) (with_minus o)
unfolding with_minus
with_minus_lem s none h = tt
with_minus_lem s (some (n, rest)) (p, e) = (minus-IsNumber p, ap (λ l. b'-' ∷ l) e)

take_number_lem : (s : Codes) → Taken IsNumber s (take_number s)
unfolding take_number
take_number_lem [] = tt
take_number_lem (c ∷ s) = elim (Bool-cases (c == b'-')) [
  | inl h ↦ rw h (
      subst (λ d. Taken IsNumber (d ∷ s) (with_minus (unsigned s))) (sym (eq_of_== c b'-' h))
        (with_minus_lem s (unsigned s) (unsigned_lem s)))
  | inr h ↦ rw h (Taken-IsNumber (c ∷ s) (unsigned (c ∷ s)) (unsigned_lem (c ∷ s)))
]

skip_space_lem : (s : Codes) → (sp : Codes) × ((all is_space sp ≡ true) × (sp ++ skip_space s ≡ s))
unfolding skip_space
skip_space_lem [] = ([], (refl, refl))
skip_space_lem (c ∷ s) = elim (Bool-cases (is_space c)) [
  | inl h ↦
      let (sp, (spaces, e)) = skip_space_lem s in
      (c ∷ sp, (rw (h, spaces) refl, rw h (ap (λ l. c ∷ l) e)))
  | inr h ↦ ([], (refl, rw h refl))
]

-- a number, white space, a dash, white space and a number
pub data IsRange : Codes → Codes → Codes → Type 0 where
  range :
      (lo hi sp sp' : Codes)
      → IsNumber lo
      → IsNumber hi
      → all is_space sp ≡ true
      → all is_space sp' ≡ true
      → IsRange (lo ++ (sp ++ (b'-' ∷ (sp' ++ hi)))) lo hi

abbrev pub IsRangeOf : Codes → Option (Codes × Codes) → Type 0
IsRangeOf v none = Unit
IsRangeOf v (some (lo, hi)) = IsRange v lo hi

empty_of : (s : Codes) → is_empty s ≡ true → s ≡ []
empty_of [] h = refl
empty_of (c ∷ s) h = cc

at_end_lem :
    (lo sp sp' s : Codes) (o : Option (Codes × Codes))
    → IsNumber lo
    → all is_space sp ≡ true
    → all is_space sp' ≡ true
    → Taken IsNumber s o
    → IsRangeOf (lo ++ (sp ++ (b'-' ∷ (sp' ++ s)))) (at_end lo o)
unfolding at_end
at_end_lem lo sp sp' s none l h h' t = tt
at_end_lem lo sp sp' s (some (hi, rest)) l h h' (p, e) = elim (Bool-cases (is_empty rest)) [
  | inl k ↦
      let whole_text : hi ≡ s =
        sym (append-nil hi) ∙ ap (λ r. hi ++ r) (sym (empty_of rest k)) ∙ e in
      rw k (
        subst (λ t. IsRange (lo ++ (sp ++ (b'-' ∷ (sp' ++ t)))) lo hi) whole_text
          (range lo hi sp sp' l p h h'))
  | inr k ↦ rw k tt
]

after_dash_lem :
    (lo sp s : Codes)
    → IsNumber lo
    → all is_space sp ≡ true
    → IsRangeOf (lo ++ (sp ++ s)) (after_dash lo s)
unfolding after_dash
after_dash_lem lo sp [] l h = tt
after_dash_lem lo sp (c ∷ s) l h = elim (Bool-cases (c == b'-')) [
  | inl k ↦
      let (sp', (h', e)) = skip_space_lem s in
      let found =
        at_end_lem lo sp sp' (skip_space s) (take_number (skip_space s)) l h h'
          (take_number_lem (skip_space s)) in
      rw k (
        subst (λ t. IsRangeOf (lo ++ (sp ++ t)) (at_end lo (take_number (skip_space s))))
          (ap (λ t. b'-' ∷ t) e ∙ ap (λ d. d ∷ s) (sym (eq_of_== c b'-' k))) found)
  | inr k ↦ rw k tt
]

after_number_lem :
    (s : Codes) (o : Option (Codes × Codes)) → Taken IsNumber s o → IsRangeOf s (after_number o)
unfolding after_number
after_number_lem s none h = tt
after_number_lem s (some (lo, rest)) (l, e) =
    let (sp, (h, split)) = skip_space_lem rest in
    subst (λ t. IsRangeOf t (after_dash lo (skip_space rest))) (ap (λ t. lo ++ t) split ∙ e)
      (after_dash_lem lo sp (skip_space rest) l h)

-- What the expression finds in a text are the two numbers of a range that is the text.
pub range_match-IsRangeOf : (v : Codes) → IsRangeOf v (range_match v)
unfolding range_match
range_match-IsRangeOf v = after_number_lem v (take_number v) (take_number_lem v)
