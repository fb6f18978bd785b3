-- ===== src/Hooks/Json.antt =====
-- `JSON.stringify` of what the mutations of frontend/src/lib/hooks.ts send. Numbers are a parameter with
-- the way in which they are printed; a field that is `undefined` is left out before.
use industry_dashboard.Base.{
  ◌≡◌, refl, Bool, true, false, [], ◌∷◌, ◌++◌, String, Codes, codes, stringify,
}

mutual
  pub data Json (N : Type 0) : Type 0 where
    null : Json N
    boolean : Bool → Json N
    number : N → Json N
    text : Codes → Json N
    array : Elements N → Json N
    object : Fields N → Json N

  pub data Elements (N : Type 0) : Type 0 where
    no_elements : Elements N
    element : Json N → Elements N → Elements N

  pub data Fields (N : Type 0) : Type 0 where
    no_fields : Fields N
    field : String → Json N → Fields N → Fields N

module _ {N : Type 0} (print : N → Codes) where
  mutual
    print_json : Json N → Codes
    print_json null = codes "null"
    print_json (boolean true) = codes "true"
    print_json (boolean false) = codes "false"
    print_json (number n) = print n
    print_json (text s) = stringify s
    print_json (array no_elements) = codes "[]"
    print_json (array (element x xs)) = b'[' ∷ (print_json x ++ print_elements xs)
    print_json (object no_fields) = codes "{}"
    print_json (object (field k x fs)) =
        b'{' ∷ (stringify (codes k) ++ b':' ∷ (print_json x ++ print_fields fs))

    print_elements : Elements N → Codes
    print_elements no_elements = b']' ∷ []
    print_elements (element x xs) = b',' ∷ (print_json x ++ print_elements xs)

    print_fields : Fields N → Codes
    print_fields no_fields = b'}' ∷ []
    print_fields (field k x fs) =
        b',' ∷ (stringify (codes k) ++ b':' ∷ (print_json x ++ print_fields fs))

  unfoldable pub body_of : Fields N → Codes
  unfolding print_json
  body_of fs = print_json (object fs)

printed :
    body_of {N = Codes}
      (λ s. s)
      (field "ids"
        (array (element (text (codes "a")) (element (number (codes "7")) no_elements)))
        (field "on" (boolean true) no_fields))
    ≡ codes "{\"ids\":[\"a\",7],\"on\":true}"
unfolding body_of print_json print_elements print_fields stringify
printed = refl
