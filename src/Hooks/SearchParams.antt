-- ===== src/Hooks/SearchParams.antt =====
-- `{ site_id, ...params }` and `new URLSearchParams(...).toString()` of frontend/src/lib/hooks.ts, by the
-- WHATWG serializer: a text is a list of code points, which are written as UTF-8.
use industry_dashboard.Base.{
  ℕ, ◌+◌, ◌-◌, ◌/◌, ◌%◌, ◌≡◌, refl, Bool, ◌&&◌, ◌||◌, List, [], ◌∷◌, ◌++◌, map, Codes, codes, join,
  ltb, leb, ◌==◌, nat_eq, codes_eq, if◌then◌else◌,
}

abbrev pub Params : Type 0
Params = List (Codes × Codes)

-- an assignment to a field of an object: a field that exists keeps its place
assign : Codes → Codes → Params → Params
assign k v [] = (k, v) ∷ []
assign k v (p ∷ ps) = let rest = assign k v ps in if p.0 == k then (k, v) ∷ ps else p ∷ rest

-- `{ ...ps, ...qs }`
spread : Params → Params → Params
unfolding assign
spread ps [] = ps
spread ps (q ∷ qs) = spread (assign q.0 q.1 ps) qs

utf8 : ℕ → List ℕ
utf8 c =
    if ltb c 0x80
    then c ∷ []
    else if ltb c 0x800
    then (0xc0 + c / 64) ∷ (0x80 + c % 64) ∷ []
    else if ltb c 0x10000
    then (0xe0 + c / 4096) ∷ (0x80 + (c / 64) % 64) ∷ (0x80 + c % 64) ∷ []
    else (0xf0 + c / 262144)
      ∷ (0x80 + (c / 4096) % 64)
      ∷ (0x80 + (c / 64) % 64)
      ∷ (0x80 + c % 64)
      ∷ []

upper_hex : ℕ → ℕ
upper_hex d = if ltb d 10 then b'0' + d else b'A' + (d - 10)

is_kept : ℕ → Bool
is_kept b =
    (leb b'0' b && leb b b'9')
    || (leb b'A' b && leb b b'Z')
    || (leb b'a' b && leb b b'z')
    || b == b'*'
    || b == b'-'
    || b == b'.'
    || b == b'_'

encode_byte : ℕ → Codes
unfolding upper_hex is_kept
encode_byte b =
    if is_kept b
    then b ∷ []
    else if b == 32
    then b'+' ∷ []
    else b'%' ∷ upper_hex (b / 16) ∷ upper_hex (b % 16) ∷ []

encode_bytes : List ℕ → Codes
unfolding encode_byte
encode_bytes [] = []
encode_bytes (b ∷ bs) = encode_byte b ++ encode_bytes bs

encode : Codes → Codes
unfolding encode_bytes utf8
encode [] = []
encode (c ∷ s) = encode_bytes (utf8 c) ++ encode s

-- `new URLSearchParams(ps).toString()`
unfoldable pub search_params : Params → Codes
unfolding encode join
search_params ps = join (b'&' ∷ []) (map (λ p. encode p.0 ++ b'=' ∷ encode p.1) ps)

-- `new URLSearchParams({ site_id, ...params }).toString()`
unfoldable pub site_params : Codes → Params → Codes
unfolding search_params spread
site_params site_id ps = search_params (spread ((codes "site_id", site_id) ∷ []) ps)

encoded :
    site_params (codes "s 1") ((codes "q", codes "a&b/é") ∷ (codes "site_id", codes "x") ∷ [])
    ≡ codes "site_id=x&q=a%26b%2F%C3%A9"
unfolding site_params
encoded = refl
