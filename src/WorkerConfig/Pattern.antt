-- ===== src/WorkerConfig/Pattern.antt =====
-- Regular expressions as the validation of frontend/src/pages/admin/WorkerConfigEditPage.tsx writes
-- them, between `^` and `$`. `test` decides them by derivatives; `Matches` says what they stand for.
pub mod Derivative
pub mod Classes
use industry_dashboard.Base.{
  ℕ, ◌≡◌, ◌⊎◌, Bool, true, false, ◌&&◌, ◌||◌, List, [], ◌∷◌, ◌++◌, All, Codes, if◌then◌else◌,
}

pub data Regex : Type 0 where
  fail empty : Regex
  -- a set of characters
  class : (ℕ → Bool) → Regex
  seq alt : Regex → Regex → Regex
  star : Regex → Regex

-- `r+` and `r?`
abbrev pub plus : Regex → Regex
plus r = seq r (star r)

abbrev opt : Regex → Regex
opt r = alt r empty

-- `r{1,3}` and `r{3}`
abbrev pub one_to_three : Regex → Regex
one_to_three r = seq r (seq (opt r) (opt r))

abbrev pub three : Regex → Regex
three r = seq r (seq r r)

pub nullable : Regex → Bool
nullable fail = false
nullable empty = true
nullable (class p) = false
nullable (seq r q) = nullable r && nullable q
nullable (alt r q) = nullable r || nullable q
nullable (star r) = true

-- what is left to match after one character
pub derivative : ℕ → Regex → Regex
unfolding nullable
derivative c fail = fail
derivative c empty = fail
derivative c (class p) = if p c then empty else fail
derivative c (seq r q) =
    let first = seq (derivative c r) q in
    let second = derivative c q in if nullable r then alt first second else first
derivative c (alt r q) = alt (derivative c r) (derivative c q)
derivative c (star r) = seq (derivative c r) (star r)

-- `/^r$/.test(s)`
unfoldable pub test : Regex → Codes → Bool
unfolding derivative nullable
test r [] = nullable r
test r (c ∷ s) = test (derivative c r) s

abbrev pub concat : List Codes → Codes
concat [] = []
concat (s ∷ ss) = s ++ concat ss

unfoldable pub Matches : Regex → Codes → Type 0
Matches fail s = ⊥
Matches empty s = s ≡ []
Matches (class p) s = (c : ℕ) × (s ≡ c ∷ []) × (p c ≡ true)
Matches (seq r q) s = (u : Codes) × (v : Codes) × (s ≡ u ++ v) × Matches r u × Matches q v
Matches (alt r q) s = Matches r s ⊎ Matches q s
Matches (star r) s = (ss : List Codes) × (s ≡ concat ss) × All (Matches r) ss
