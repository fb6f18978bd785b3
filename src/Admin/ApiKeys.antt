-- ===== src/Admin/ApiKeys.antt =====
-- The state and the handlers of ApiKeysPage.tsx. A mutation that was sent ends later: `created`,
-- `create_failed` and `revoked` are its callbacks.
use industry_dashboard.Base.{
  ◌≡◌, refl, ◌∙◌, Bool, true, false, not, ◌&&◌, String, List, [], ◌∷◌, any, All, Option, none, some,
  Codes, trim, trim_idem, is_empty, arith, if◌then◌else◌, Bool-cases, inl, inr,
}

pub record Target : Type 0 where
  pub id : String
  pub name : String

pub record Page : Type 0 where
  pub create_open : Bool
  pub key_name : Codes
  -- the secret of a new key, which the server shows once
  pub created_key : Option Codes
  pub copied : Bool
  pub revoke_target : Option Target
  -- `createMutation.isPending`
  pub creating : Bool

abbrev pub initial : Page
initial = record {
  create_open = false;
  key_name = [];
  created_key = none;
  copied = false;
  revoke_target = none;
  creating = false;
}

pub data Command : Type 0 where
  create_key : (name : Codes) → Command
  revoke_key : (id : String) → Command

-- `handleCreate`
unfoldable pub handle_create : Page → Page × Option Command
unfolding trim
handle_create p =
    if is_empty (trim p.key_name)
    then (p, none)
    else (record p { creating = true }, some (create_key (trim p.key_name)))

-- its `onSuccess`
on_created : Codes → Page → Page
on_created key p = record p { created_key = some key; key_name = []; creating = false }

-- `handleCopy`, when the clipboard has the key
copy_if : Option Codes → Page → Page
copy_if none p = p
copy_if (some _) p = record p { copied = true }

handle_copy : Page → Page
unfolding copy_if
handle_copy p = copy_if p.created_key p

-- `handleCloseCreate`
handle_close_create : Page → Page
handle_close_create p = record p {
  create_open = false;
  created_key = none;
  key_name = [];
  copied = false;
}

-- `handleRevoke`
revoke_of : Option Target → Option Command
revoke_of none = none
revoke_of (some t) = some (revoke_key t.id)

handle_revoke : Page → Page × Option Command
unfolding revoke_of
handle_revoke p = (p, revoke_of p.revoke_target)

pub data Event : Type 0 where
  open_create close_create : Event
  type_name : Codes → Event
  -- the button, and the key Enter in the field
  press_create press_enter : Event
  created : (full_key : Codes) → Event
  create_failed : Event
  copy uncopy : Event
  ask_revoke : Target → Event
  cancel_revoke confirm_revoke revoked : Event

-- The fields of the dialog are there while it is open and no key is shown.
abbrev pub is_form : Page → Bool
is_form p = p.create_open && elim p.created_key [ none ↦ true | some _ ↦ false ]

unfoldable pub step : Event → Page → Page × Option Command
unfolding handle_create on_created handle_copy handle_close_create handle_revoke
step open_create p = (record p { create_open = true }, none)
step close_create p = (handle_close_create p, none)
step (type_name v) p = (if is_form p then record p { key_name = v } else p, none)
step press_create p = if is_form p && not p.creating then handle_create p else (p, none)
step press_enter p = if is_form p then handle_create p else (p, none)
step (created key) p = (on_created key p, none)
step create_failed p = (record p { creating = false }, none)
step copy p = (handle_copy p, none)
step uncopy p = (record p { copied = false }, none)
step (ask_revoke t) p = (record p { revoke_target = some t }, none)
step cancel_revoke p = (record p { revoke_target = none }, none)
step confirm_revoke p = handle_revoke p
step revoked p = (record p { revoke_target = none }, none)

unfoldable pub run : List Event → Page → Page × List (Option Command)
unfolding step
run [] p = (p, [])
run (e ∷ es) p = let (q, c) = step e p in let (r, cs) = run es q in (r, c ∷ cs)

abbrev is_created : Event → Bool
is_created (created _) = true
is_created _ = false

copied_key : (o : Option Codes) (p : Page) → (copy_if o p).created_key ≡ p.created_key
unfolding copy_if
copied_key none p = refl
copied_key (some key) p = refl

step-created_key :
    (e : Event) (p : Page)
    → is_created e ≡ false
    → p.created_key ≡ none
    → (step e p).0.created_key ≡ none
unfolding step handle_copy handle_revoke handle_create
step-created_key open_create p h k = k
step-created_key close_create p h k = refl
step-created_key (type_name v) p h k = ground (arith, k)
step-created_key press_create p h k = ground (arith, k)
step-created_key press_enter p h k = ground (arith, k)
step-created_key (created key) p h k = absurd cc
step-created_key create_failed p h k = k
step-created_key copy p h k = copied_key p.created_key p ∙ k
step-created_key uncopy p h k = k
step-created_key (ask_revoke t) p h k = k
step-created_key cancel_revoke p h k = k
step-created_key confirm_revoke p h k = k
step-created_key revoked p h k = k

-- After the dialog is closed the secret of a key is not shown again, whatever events follow, as long
-- as no creation is answered.
pub run-closed :
    (es : List Event) (p : Page)
    → any is_created es ≡ false
    → (run (close_create ∷ es) p).0.created_key ≡ none
unfolding run step handle_close_create
run-closed es p h = from es (handle_close_create p) h refl
  where
    from :
        (es : List Event) (p : Page)
        → any is_created es ≡ false
        → p.created_key ≡ none
        → (run es p).0.created_key ≡ none
    from [] p h k = k
    from (e ∷ es) p h k =
        from es (step e p).0 (ground (arith, h)) (step-created_key e p (ground (arith, h)) k)

-- The name that a creation sends is not empty and has no white space at its ends.
abbrev pub IsNamed : Option Command → Type 0
IsNamed (some (create_key name)) = (is_empty name ≡ false) × (trim name ≡ name)
IsNamed _ = Unit

revoke_of-IsNamed : (o : Option Target) → IsNamed (revoke_of o)
unfolding revoke_of
revoke_of-IsNamed none = tt
revoke_of-IsNamed (some t) = tt

handle_create-IsNamed : (p : Page) → IsNamed (handle_create p).1
unfolding handle_create
handle_create-IsNamed p = elim (Bool-cases (is_empty (trim p.key_name))) [
  | inl empty ↦ rw empty tt
  | inr named ↦ rw named (named, trim_idem p.key_name)
]

step-IsNamed : (e : Event) (p : Page) → IsNamed (step e p).1
unfolding step handle_revoke
step-IsNamed press_create p = elim (Bool-cases (is_form p && not p.creating)) [
  | inl can ↦ rw can (handle_create-IsNamed p)
  | inr can_not ↦ rw can_not tt
]
step-IsNamed press_enter p = elim (Bool-cases (is_form p)) [
  | inl can ↦ rw can (handle_create-IsNamed p)
  | inr can_not ↦ rw can_not tt
]
step-IsNamed confirm_revoke p = revoke_of-IsNamed p.revoke_target
step-IsNamed open_create p = tt
step-IsNamed close_create p = tt
step-IsNamed (type_name v) p = tt
step-IsNamed (created key) p = tt
step-IsNamed create_failed p = tt
step-IsNamed copy p = tt
step-IsNamed uncopy p = tt
step-IsNamed (ask_revoke t) p = tt
step-IsNamed cancel_revoke p = tt
step-IsNamed revoked p = tt

-- However the page is used, every creation of a key that it sends has a name that is not empty and
-- has no white space at its ends.
pub run-IsNamed : (es : List Event) (p : Page) → All IsNamed (run es p).1
unfolding run
run-IsNamed [] p = tt
run-IsNamed (e ∷ es) p = (step-IsNamed e p, run-IsNamed es (step e p).0)

-- In the form with a name that is not blank, Enter pressed twice before the server answers sends two
-- creations of a key, and the button pressed after Enter sends no second one.
pub run-press_enter :
    (p : Page)
    → is_form p ≡ true
    → is_empty (trim p.key_name) ≡ false
    → let sent = some (create_key (trim p.key_name)) in
      ((run (press_enter ∷ press_enter ∷ []) p).1 ≡ sent ∷ sent ∷ [])
      × ((run (press_enter ∷ press_create ∷ []) p).1 ≡ sent ∷ none ∷ [])
unfolding run step handle_create
run-press_enter p form named = (ground (arith, form, named), ground (arith, form, named))
