-- ===== src/Settings/Tests.antt =====
-- The stored interval and the sites at concrete values, and the theorems at them.
use industry_dashboard.Base.{
  ◌≡◌, refl, true, String, List, [], ◌∷◌, any, none, some, codes, pos, negsuc, ◌==◌, string_eq,
  is_space,
}
use industry_dashboard.Settings.Decimal.{print_nat, parse_int}
use industry_dashboard.Settings.RefreshInterval.{load_interval}
use industry_dashboard.Settings.Sites.{Site}

print_test : print_nat 30000 ≡ codes "30000"
unfolding print_nat
print_test = refl

parse_test :
    (parse_int (codes " -12ms") ≡ some (negsuc 11))
    × (parse_int (codes "+7") ≡ some (pos 7))
    × (parse_int (codes "ms") ≡ none)
unfolding parse_int is_space
parse_test = (refl, refl, refl)

load_test :
    (load_interval (some (codes "4999")) ≡ 30000)
    × (load_interval (some (codes "60000")) ≡ 60000)
    × (load_interval none ≡ 30000)
unfolding load_interval is_space
load_test = (refl, refl, refl)

abbrev site : String → Site
site id = record { id = id; name = "Plant"; code = "P"; timezone = "UTC" }

abbrev both : List Site
both = site "a" ∷ site "b" ∷ []

has_b : any (λ t. t.id == "b") both ≡ true
has_b = refl
