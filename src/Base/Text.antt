-- ===== src/Base/Text.antt =====
-- Text that the program walks, as a list of code points, with JavaScript's `trim`, `split`,
-- `startsWith`, `endsWith`, `includes` and `slice`.
use Prim.Native.Char.{code}
use Prim.Native.Nat.{ℕ}
use Prim.Native.String.{String}
use mathlib.Core.Path.{◌≡◌, refl, ap}
use mathlib.Core.Bool.{Bool, true, false, ◌&&◌, ◌||◌}
use mathlib.Core.Logic.{◌≢◌, ◌↔◌, inl, inr}
use mathlib.Core.List.{List, [], ◌∷◌, ◌++◌, append_assoc, append-nil}
use native.Mathlib.Omega.{arith}
use industry_dashboard.Base.Equality.{Eq, ◌==◌, nat_eq}
use industry_dashboard.Base.Tests.{leb, if◌then◌else◌, Bool-cases}
use industry_dashboard.Base.Lists.{All}

abbrev pub Codes : Type 0
Codes = List ℕ

abbrev pub codes : String → Codes
codes String.[] = []
codes (String.◌∷◌ c s) = code c ∷ codes s

abbrev pub codes_beq : Codes → Codes → Bool
codes_beq [] [] = true
codes_beq [] (_ ∷ _) = false
codes_beq (_ ∷ _) [] = false
codes_beq (c ∷ s) (d ∷ t) = c == d && codes_beq s t

pub codes_beq_iff : (s t : Codes) → (codes_beq s t ≡ true) ↔ (s ≡ t)
codes_beq_iff [] [] = (λ _. refl, λ _. refl)
codes_beq_iff [] (d ∷ t) = ground arith
codes_beq_iff (c ∷ s) [] = ground arith
codes_beq_iff (c ∷ s) (d ∷ t) = ground (arith, codes_beq_iff s t)

instance abbrev pub codes_eq : Eq Codes
codes_eq = record { same = codes_beq; same_iff = codes_beq_iff }

-- The empty text is the one that an `if` takes for false.
abbrev pub is_empty : Codes → Bool
is_empty [] = true
is_empty (_ ∷ _) = false

-- WhiteSpace and LineTerminator of ECMAScript, which `trim` takes off.
unfoldable pub is_space : ℕ → Bool
is_space c =
    c == 32
    || (leb 9 c && leb c 13)
    || c == 0xa0
    || c == 0x1680
    || (leb 0x2000 c && leb c 0x200a)
    || c == 0x2028
    || c == 0x2029
    || c == 0x202f
    || c == 0x205f
    || c == 0x3000
    || c == 0xfeff

unfoldable pub trim_start : Codes → Codes
trim_start [] = []
trim_start (c ∷ s) = let rest = trim_start s in if is_space c then rest else c ∷ s

pub trim_end : Codes → Codes
trim_end [] = []
trim_end (c ∷ s) = let rest = trim_end s in if is_space c && is_empty rest then [] else c ∷ rest

unfoldable pub trim : Codes → Codes
unfolding trim_start trim_end is_space
trim s = trim_end (trim_start s)

abbrev pub starts_with : Codes → Codes → Bool
starts_with s [] = true
starts_with [] (_ ∷ _) = false
starts_with (c ∷ s) (d ∷ t) = c == d && starts_with s t

-- `s.includes(t)`
abbrev pub contains : Codes → Codes → Bool
contains [] t = starts_with [] t
contains (c ∷ s) t = starts_with (c ∷ s) t || contains s t

abbrev pub ends_with : Codes → Codes → Bool
ends_with [] t = [] == t
ends_with (c ∷ s) t = (c ∷ s) == t || ends_with s t

split_from : ℕ → Codes → Codes → List Codes
split_from sep cur [] = cur ∷ []
split_from sep cur (c ∷ s) =
    let closed = cur ∷ split_from sep [] s in
    let longer = split_from sep (cur ++ c ∷ []) s in if c == sep then closed else longer

-- `s.split(sep)` at one character
unfoldable pub split : ℕ → Codes → List Codes
unfolding split_from
split sep s = split_from sep [] s

-- `parts.join(sep)`
unfoldable pub join : Codes → List Codes → Codes
join sep [] = []
join sep (p ∷ []) = p
join sep (p ∷ q ∷ ps) = p ++ (sep ++ join sep (q ∷ ps))

abbrev pub Lacks : ℕ → Codes → Type 0
Lacks sep = All (λ c. c ≢ sep)

split_from-Lacks : (sep : ℕ) (cur p : Codes) → Lacks sep p → split_from sep cur p ≡ (cur ++ p) ∷ []
unfolding split_from
split_from-Lacks sep cur [] h = rw append-nil
split_from-Lacks sep cur (c ∷ p) h =
    ground (arith, split_from-Lacks sep (cur ++ c ∷ []) p, append_assoc cur (c ∷ []) p)

split_from-append :
    (sep : ℕ) (cur p rest : Codes)
    → Lacks sep p
    → split_from sep cur (p ++ sep ∷ rest) ≡ (cur ++ p) ∷ split_from sep [] rest
unfolding split_from
split_from-append sep cur [] rest h = ground (arith, append-nil cur)
split_from-append sep cur (c ∷ p) rest h =
    ground (arith, split_from-append sep (cur ++ c ∷ []) p rest, append_assoc cur (c ∷ []) p)

-- Parts without the separator are found again.
pub split-join :
    (sep : ℕ) (p : Codes) (ps : List Codes)
    → All (Lacks sep) (p ∷ ps)
    → split sep (join (sep ∷ []) (p ∷ ps)) ≡ p ∷ ps
unfolding split join
split-join sep p [] h = split_from-Lacks sep [] p h.0
split-join sep p (q ∷ ps) h =
    rw (split_from-append sep [] p (join (sep ∷ []) (q ∷ ps)) h.0)
      (ap (λ l. p ∷ l) (split-join sep q ps h.1))

-- No white space at the front.
abbrev pub IsTrimmedStart : Codes → Type 0
IsTrimmedStart [] = Unit
IsTrimmedStart (c ∷ s) = is_space c ≡ false

trim_start_of_IsTrimmedStart : (s : Codes) → IsTrimmedStart s → trim_start s ≡ s
unfolding trim_start
trim_start_of_IsTrimmedStart [] h = refl
trim_start_of_IsTrimmedStart (c ∷ s) h = rw h

trim_start-IsTrimmedStart : (s : Codes) → IsTrimmedStart (trim_start s)
unfolding trim_start
trim_start-IsTrimmedStart [] = tt
trim_start-IsTrimmedStart (c ∷ s) = elim (Bool-cases (is_space c)) [
  | inl space ↦ rw space (trim_start-IsTrimmedStart s)
  | inr other ↦ rw other other
]

trim_end-IsTrimmedStart : (s : Codes) → IsTrimmedStart s → IsTrimmedStart (trim_end s)
unfolding trim_end
trim_end-IsTrimmedStart [] h = tt
trim_end-IsTrimmedStart (c ∷ s) h = rw h h

trim_end_idem : (s : Codes) → trim_end (trim_end s) ≡ trim_end s
unfolding trim_end
trim_end_idem [] = refl
trim_end_idem (c ∷ s) = ground (arith, trim_end_idem s)

-- Trimming twice is trimming once.
pub trim_idem : (s : Codes) → trim (trim s) ≡ trim s
unfolding trim
trim_idem s =
    rw
      (trim_start_of_IsTrimmedStart (trim_end (trim_start s))
        (trim_end-IsTrimmedStart _ (trim_start-IsTrimmedStart s)))
      (trim_end_idem (trim_start s))
