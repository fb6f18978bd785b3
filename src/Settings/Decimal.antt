-- ===== src/Settings/Decimal.antt =====
-- `String(n)` of a natural number and `parseInt(s, 10)` of a text.
use industry_dashboard.Base.{
  ℕ, zero, suc, ◌+◌, ◌-◌, ◌*◌, ◌/◌, ◌%◌, ◌≤◌, ◌<◌, ◌≡◌, refl, ap, ◌∙◌, subst, Bool, true, false,
  ◌&&◌, [], ◌∷◌, ◌++◌, Option, none, some, Codes, leb, ltb, trim_start, if◌then◌else◌, arith,
  Bool-cases, inl, inr, is_space, all, is_empty, ◌==◌, nat_eq, ℤ, pos, negsuc,
}

-- the digits of a number, with fuel; a number needs no more digits than itself and one
print_from : ℕ → ℕ → Codes
print_from zero n = []
print_from (suc fuel) n =
    let more = print_from fuel (n / 10) in
    let digit = b'0' + n % 10 in if ltb n 10 then digit ∷ [] else more ++ digit ∷ []

unfoldable pub print_nat : ℕ → Codes
unfolding print_from
print_nat n = print_from (suc n) n

-- `String(n)`
unfoldable pub print_int : ℤ → Codes
unfolding print_nat
print_int (pos n) = print_nat n
print_int (negsuc n) = b'-' ∷ print_nat (suc n)

abbrev pub is_digit : ℕ → Bool
is_digit c = leb b'0' c && leb c b'9'

-- the digits at the front of a text, after what has been read
read_digits : ℕ → Codes → ℕ
read_digits acc [] = acc
read_digits acc (c ∷ s) =
    let rest = read_digits (acc * 10 + (c - b'0')) s in if is_digit c then rest else acc

abbrev signed : Bool → ℕ → ℤ
signed false n = pos n
signed true zero = pos zero
signed true (suc n) = negsuc n

-- `none` is NaN
unsigned : Bool → Codes → Option ℤ
unfolding read_digits
unsigned minus [] = none
unsigned minus (c ∷ s) = if is_digit c then some (signed minus (read_digits 0 (c ∷ s))) else none

with_sign : Codes → Option ℤ
unfolding unsigned
with_sign [] = none
with_sign (c ∷ s) =
    if c == b'-'
    then unsigned true s
    else if c == b'+'
    then unsigned false s
    else unsigned false (c ∷ s)

unfoldable pub parse_int : Codes → Option ℤ
unfolding with_sign trim_start
parse_int s = with_sign (trim_start s)

read_digits_snoc :
    (acc : ℕ) (s : Codes) (d : ℕ)
    → all is_digit s ≡ true
    → is_digit d ≡ true
    → read_digits acc (s ++ d ∷ []) ≡ read_digits acc s * 10 + (d - b'0')
unfolding read_digits
read_digits_snoc acc [] d h hd = ground arith
read_digits_snoc acc (c ∷ s) d h hd =
    ground (arith, h, hd, read_digits_snoc (acc * 10 + (c - b'0')) s d)

all-snoc :
    (s : Codes) (d : ℕ)
    → all is_digit s ≡ true
    → is_digit d ≡ true
    → all is_digit (s ++ d ∷ []) ≡ true
all-snoc [] d h hd = ground arith
all-snoc (c ∷ s) d h hd = ground (arith, h, hd, all-snoc s d)

digit_mod : (n : ℕ) → is_digit (b'0' + n % 10) ≡ true
digit_mod n = let h : n % 10 < 10 = omega arith in ground (arith, h)

print_from-digits : (fuel n : ℕ) → all is_digit (print_from fuel n) ≡ true
unfolding print_from
print_from-digits zero n = refl
print_from-digits (suc fuel) n = elim (Bool-cases (ltb n 10)) [
  | inl small ↦ rw small (ground (arith, digit_mod n))
  | inr big ↦ rw big (
      all-snoc (print_from fuel (n / 10)) (b'0' + n % 10) (print_from-digits fuel (n / 10))
        (digit_mod n))
]

read_digits-print_from : (fuel n : ℕ) → n < fuel → read_digits 0 (print_from fuel n) ≡ n
unfolding read_digits print_from
read_digits-print_from zero n h = absurd (omega (arith, h))
read_digits-print_from (suc fuel) n h = elim (Bool-cases (ltb n 10)) [
  | inl small ↦ rw small (ground (arith, digit_mod n, small))
  | inr big ↦
      let big' : 10 ≤ n = ground (arith, big) in
      let smaller : n / 10 < fuel = omega (arith, h, big') in
      rw
        (
          big,
          read_digits_snoc 0 (print_from fuel (n / 10)) (b'0' + n % 10)
              (print_from-digits fuel (n / 10)) (digit_mod n),
          read_digits-print_from fuel (n / 10) smaller,
        )
        (omega arith)
]

-- A printed number begins with a digit.
print_from_first :
    (fuel n : ℕ) → (c : ℕ) × (s : Codes) × (print_from (suc fuel) n ≡ c ∷ s) × (is_digit c ≡ true)
unfolding print_from
print_from_first zero n = elim (Bool-cases (ltb n 10)) [
  | inl small ↦ (b'0' + n % 10, [], rw small refl, digit_mod n)
  | inr big ↦ (b'0' + n % 10, [], rw big refl, digit_mod n)
]
print_from_first (suc fuel) n = elim (Bool-cases (ltb n 10)) [
  | inl small ↦ (b'0' + n % 10, [], rw small refl, digit_mod n)
  | inr big ↦
      let (c, s, e, hc) = print_from_first fuel (n / 10) in
      (c, s ++ (b'0' + n % 10) ∷ [], rw big (ap (λ l. l ++ (b'0' + n % 10) ∷ []) e), hc)
]

parse_digits :
    (c : ℕ) (s : Codes) → is_digit c ≡ true → parse_int (c ∷ s) ≡ some (pos (read_digits 0 (c ∷ s)))
unfolding parse_int with_sign unsigned trim_start is_space
parse_digits c s h =
    let lo : 48 ≤ c = ground (arith, h) in
    let hi : c ≤ 57 = ground (arith, h) in ground (arith, h, lo, hi)

-- A natural number that is printed is read again.
pub parse_int-print_nat : (n : ℕ) → parse_int (print_nat n) ≡ some (pos n)
unfolding print_nat
parse_int-print_nat n =
    let (c, s, e, hc) = print_from_first n n in
    let value : read_digits 0 (c ∷ s) ≡ n =
      subst (λ l. read_digits 0 l ≡ n) e (read_digits-print_from (suc n) n (omega arith)) in
    ap parse_int e ∙ parse_digits c s hc ∙ ap (λ k. some (pos k)) value

pub is_empty-print_nat : (n : ℕ) → is_empty (print_nat n) ≡ false
unfolding print_nat
is_empty-print_nat n = let (c, s, e, hc) = print_from_first n n in ap is_empty e

parse_minus :
    (c : ℕ) (s : Codes)
    → is_digit c ≡ true
    → parse_int (b'-' ∷ (c ∷ s)) ≡ some (signed true (read_digits 0 (c ∷ s)))
unfolding parse_int with_sign unsigned trim_start is_space
parse_minus c s h = rw h refl

-- An integer that is printed is read again.
pub parse_int-print_int : (z : ℤ) → parse_int (print_int z) ≡ some z
unfolding print_int
parse_int-print_int (pos n) = parse_int-print_nat n
parse_int-print_int (negsuc n) =
    let (c, s, e, hc) = print_from_first (suc n) (suc n) in
    let value : read_digits 0 (c ∷ s) ≡ suc n =
      subst (λ l. read_digits 0 l ≡ suc n) e
        (read_digits-print_from (suc (suc n)) (suc n) (omega arith)) in
    ap (λ l. parse_int (b'-' ∷ l)) e ∙ parse_minus c s hc ∙ ap (λ k. some (signed true k)) value
