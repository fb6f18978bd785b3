-- ===== src/Indicators/Ranges.antt =====
-- The expression for a range in `matchMapping` of frontend/src/components/widgets/IndicatorWidget.tsx, a number,
-- a dash and a number, with white space around the dash. No choice of the expression can be taken back: where a
-- digit or a fraction is given up, what follows is neither white space nor a dash.
pub mod Found
use industry_dashboard.Base.{
  ℕ, ◌≡◌, refl, subst, ◌∙◌, Bool, true, false, not, ◌&&◌, [], ◌∷◌, ◌++◌, append_assoc, append-nil,
  Option, none, some, Codes, all, is_empty, is_space, ◌==◌, nat_eq, codes_eq, arith, if◌then◌else◌,
}
use industry_dashboard.Settings.Decimal.{is_digit}

-- `\d*` at the front of a text: the digits, and what follows
pub take_digits : Codes → Codes × Codes
take_digits [] = ([], [])
take_digits (c ∷ s) =
    let (ds, rest) = take_digits s in if is_digit c then (c ∷ ds, rest) else ([], c ∷ s)

-- `\s*`
pub skip_space : Codes → Codes
skip_space [] = []
skip_space (c ∷ s) = let rest = skip_space s in if is_space c then rest else c ∷ s

-- `(?:\.\d+)?` after the digits of a number
pub with_fraction : Codes → Codes → Codes × Codes
unfolding take_digits
with_fraction ds [] = (ds, [])
with_fraction ds (c ∷ s) =
    let (fs, rest) = take_digits s in
    if c == b'.' && not (is_empty fs) then (ds ++ (c ∷ fs), rest) else (ds, c ∷ s)

-- `\d+(?:\.\d+)?`
pub unsigned : Codes → Option (Codes × Codes)
unfolding take_digits with_fraction
unsigned s =
    let (ds, rest) = take_digits s in if is_empty ds then none else some (with_fraction ds rest)

pub with_minus : Option (Codes × Codes) → Option (Codes × Codes)
with_minus none = none
with_minus (some (n, rest)) = some (b'-' ∷ n, rest)

-- `-?\d+(?:\.\d+)?`
pub take_number : Codes → Option (Codes × Codes)
unfolding unsigned with_minus
take_number [] = none
take_number (c ∷ s) = if c == b'-' then with_minus (unsigned s) else unsigned (c ∷ s)

-- the end of the expression
pub at_end : Codes → Option (Codes × Codes) → Option (Codes × Codes)
at_end lo none = none
at_end lo (some (hi, rest)) = if is_empty rest then some (lo, hi) else none

pub after_dash : Codes → Codes → Option (Codes × Codes)
unfolding at_end take_number skip_space
after_dash lo [] = none
after_dash lo (c ∷ s) = if c == b'-' then at_end lo (take_number (skip_space s)) else none

pub after_number : Option (Codes × Codes) → Option (Codes × Codes)
unfolding after_dash skip_space
after_number none = none
after_number (some (lo, rest)) = after_dash lo (skip_space rest)

-- `v.match(/^(-?\d+(?:\.\d+)?)\s*-\s*(-?\d+(?:\.\d+)?)$/)`, the two groups
unfoldable pub range_match : Codes → Option (Codes × Codes)
unfolding after_number take_number
range_match v = after_number (take_number v)

-- digits, at least one
abbrev pub IsDigits : Codes → Type 0
IsDigits ds = (all is_digit ds ≡ true) × (is_empty ds ≡ false)

-- how a number is written: a minus or none, digits, and a fraction or none
pub data IsNumber : Codes → Type 0 where
  whole : (ds : Codes) → IsDigits ds → IsNumber ds
  fraction : (ds fs : Codes) → IsDigits ds → IsDigits fs → IsNumber (ds ++ (b'.' ∷ fs))
  negative : (ds : Codes) → IsDigits ds → IsNumber (b'-' ∷ ds)
  negative_fraction :
      (ds fs : Codes) → IsDigits ds → IsDigits fs → IsNumber (b'-' ∷ (ds ++ (b'.' ∷ fs)))

-- what may follow a number: nothing, or white space or a dash
abbrev IsAfter : Codes → Type 0
IsAfter [] = Unit
IsAfter (c ∷ s) = (is_digit c ≡ false) × ((c == b'.') ≡ false)

pub both : (a b : Bool) → (a && b) ≡ true → (a ≡ true) × (b ≡ true)
both true b h = (refl, h)
both false b h = cc

take_digits_of_IsAfter : (rest : Codes) → IsAfter rest → take_digits rest ≡ ([], rest)
unfolding take_digits
take_digits_of_IsAfter [] h = refl
take_digits_of_IsAfter (c ∷ s) h = rw h.0 refl

take_digits-append :
    (ds rest : Codes)
    → all is_digit ds ≡ true
    → take_digits rest ≡ ([], rest)
    → take_digits (ds ++ rest) ≡ (ds, rest)
unfolding take_digits
take_digits-append [] rest h e = e
take_digits-append (d ∷ ds) rest h e =
    let (hd, hs) = both (is_digit d) (all is_digit ds) h in
    rw (hd, take_digits-append ds rest hs e) refl

with_fraction_of_IsAfter : (ds rest : Codes) → IsAfter rest → with_fraction ds rest ≡ (ds, rest)
unfolding with_fraction
with_fraction_of_IsAfter ds [] h = refl
with_fraction_of_IsAfter ds (c ∷ s) h = rw h.1 refl

unsigned-whole :
    (ds rest : Codes) → IsDigits ds → IsAfter rest → unsigned (ds ++ rest) ≡ some (ds, rest)
unfolding unsigned
unsigned-whole ds rest h a =
    rw
      (
        take_digits-append ds rest h.0 (take_digits_of_IsAfter rest a),
        h.1,
        with_fraction_of_IsAfter ds rest a,
      )
      refl

-- a point is no digit
take_digits_point : (s : Codes) → take_digits (b'.' ∷ s) ≡ ([], b'.' ∷ s)
unfolding take_digits
take_digits_point s = refl

unsigned-fraction :
    (ds fs rest : Codes)
    → IsDigits ds
    → IsDigits fs
    → IsAfter rest
    → unsigned (ds ++ (b'.' ∷ (fs ++ rest))) ≡ some (ds ++ (b'.' ∷ fs), rest)
unfolding unsigned with_fraction
unsigned-fraction ds fs rest h k a =
    rw
      (
        take_digits-append ds (b'.' ∷ (fs ++ rest)) h.0 (take_digits_point (fs ++ rest)),
        h.1,
        take_digits-append fs rest k.0 (take_digits_of_IsAfter rest a),
        k.1,
      )
      refl

digit_ne_minus : (c : ℕ) → is_digit c ≡ true → (c == b'-') ≡ false
digit_ne_minus c h = ground (arith, h)

-- A text that begins with a digit has no minus to take.
take_number_digits :
    (ds rest : Codes) → IsDigits ds → take_number (ds ++ rest) ≡ unsigned (ds ++ rest)
unfolding take_number
take_number_digits [] rest h = absurd (cc)
take_number_digits (d ∷ ds) rest h =
    let (hd, hs) = both (is_digit d) (all is_digit ds) h.0 in rw (digit_ne_minus d hd) refl

take_number-append :
    (n rest : Codes) → IsNumber n → IsAfter rest → take_number (n ++ rest) ≡ some (n, rest)
unfolding take_number with_minus
take_number-append n rest (whole ds h) a = take_number_digits ds rest h ∙ unsigned-whole ds rest h a
take_number-append n rest (fraction ds fs h k) a =
    rw (append_assoc ds (b'.' ∷ fs) rest)
      (take_number_digits ds (b'.' ∷ (fs ++ rest)) h ∙ unsigned-fraction ds fs rest h k a)
take_number-append n rest (negative ds h) a = rw (unsigned-whole ds rest h a) refl
take_number-append n rest (negative_fraction ds fs h k) a =
    rw (append_assoc ds (b'.' ∷ fs) rest, unsigned-fraction ds fs rest h k a) refl

skip_space-append : (sp s : Codes) → all is_space sp ≡ true → skip_space (sp ++ s) ≡ skip_space s
unfolding skip_space
skip_space-append [] s h = refl
skip_space-append (c ∷ sp) s h =
    let (hc, hs) = both (is_space c) (all is_space sp) h in rw (hc, skip_space-append sp s hs) refl

space_ne_digit : (c : ℕ) → is_space c ≡ true → (is_digit c ≡ false) × ((c == b'.') ≡ false)
unfolding is_space
space_ne_digit c h = (ground (arith, h), ground (arith, h))

digit_ne_space : (c : ℕ) → is_digit c ≡ true → is_space c ≡ false
unfolding is_space
digit_ne_space c h = ground (arith, h)

space-IsAfter : (sp s : Codes) → all is_space sp ≡ true → IsAfter (sp ++ b'-' ∷ s)
space-IsAfter [] s h = (refl, refl)
space-IsAfter (c ∷ sp) s h = space_ne_digit c (both (is_space c) (all is_space sp) h).0

skip_space_digits : (ds rest : Codes) → IsDigits ds → skip_space (ds ++ rest) ≡ ds ++ rest
unfolding skip_space
skip_space_digits [] rest h = absurd cc
skip_space_digits (d ∷ ds) rest h =
    rw (digit_ne_space d (both (is_digit d) (all is_digit ds) h.0).0) refl

skip_space_number : (n : Codes) → IsNumber n → skip_space n ≡ n
unfolding skip_space is_space
skip_space_number n (whole ds h) =
    subst (λ l. skip_space l ≡ l) (append-nil ds) (skip_space_digits ds [] h)
skip_space_number n (fraction ds fs h k) = skip_space_digits ds (b'.' ∷ fs) h
skip_space_number n (negative ds h) = refl
skip_space_number n (negative_fraction ds fs h k) = refl

take_number_last : (n : Codes) → IsNumber n → take_number n ≡ some (n, [])
take_number_last n h =
    subst (λ l. take_number l ≡ some (n, [])) (append-nil n) (take_number-append n [] h tt)

skip_space_dash : (s : Codes) → skip_space (b'-' ∷ s) ≡ b'-' ∷ s
unfolding skip_space is_space
skip_space_dash s = refl

-- The two numbers of a range are found again: a number, white space, a dash, white space and a number.
pub range_match-append :
    (lo hi sp sp' : Codes)
    → IsNumber lo
    → IsNumber hi
    → all is_space sp ≡ true
    → all is_space sp' ≡ true
    → range_match (lo ++ (sp ++ (b'-' ∷ (sp' ++ hi)))) ≡ some (lo, hi)
unfolding range_match after_number after_dash at_end
range_match-append lo hi sp sp' l h s s' =
    rw
      (
        take_number-append lo (sp ++ b'-' ∷ (sp' ++ hi)) l (space-IsAfter sp (sp' ++ hi) s),
        skip_space-append sp (b'-' ∷ (sp' ++ hi)) s,
        skip_space_dash (sp' ++ hi),
        skip_space-append sp' hi s',
        skip_space_number hi h,
        take_number_last hi h,
      )
      refl
