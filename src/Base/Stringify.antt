-- ===== src/Base/Stringify.antt =====
-- `JSON.stringify` of a text and of an object whose fields are texts.
use Prim.Native.Nat.{ℕ, ◌+◌, ◌-◌, ◌/◌, ◌%◌}
use Prim.Native.String.{String}
use mathlib.Core.List.{[], ◌∷◌, ◌++◌, List, map}
use mathlib.Core.Path.{◌≡◌, refl}
use industry_dashboard.Base.Equality.{◌==◌, nat_eq}
use industry_dashboard.Base.Tests.{ltb, if◌then◌else◌}
use industry_dashboard.Base.Text.{Codes, codes, join}

-- a hexadecimal digit
hex : ℕ → ℕ
hex d = if ltb d 10 then b'0' + d else b'a' + (d - 10)

-- what stands between the quotes for one character
escaped : ℕ → Codes
unfolding hex
escaped c =
    if c == b'"'
    then b'\\' ∷ b'"' ∷ []
    else if c == b'\\'
    then b'\\' ∷ b'\\' ∷ []
    else if c == 8
    then codes "\\b"
    else if c == 9
    then codes "\\t"
    else if c == 10
    then codes "\\n"
    else if c == 12
    then codes "\\f"
    else if c == 13
    then codes "\\r"
    else if ltb c 32
    then codes "\\u00" ++ hex (c / 16) ∷ hex (c % 16) ∷ []
    else c ∷ []

escape_all : Codes → Codes
escape_all [] = []
escape_all (c ∷ s) = escaped c ++ escape_all s

unfoldable pub stringify : Codes → Codes
unfolding escape_all escaped
stringify s = b'"' ∷ (escape_all s ++ b'"' ∷ [])

unfoldable pub stringify_object : List (String × Codes) → Codes
unfolding stringify join
stringify_object fields =
    b'{'
    ∷ (join (b',' ∷ []) (map (λ f. stringify (codes f.0) ++ b':' ∷ stringify f.1) fields)
        ++ b'}' ∷ [])

quoted :
    stringify_object (("email", codes "a\"b") ∷ ("n", codes "\n") ∷ [])
    ≡ codes "{\"email\":\"a\\\"b\",\"n\":\"\\n\"}"
unfolding stringify_object
quoted = refl
