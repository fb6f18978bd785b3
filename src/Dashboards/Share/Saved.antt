-- ===== src/Dashboards/Share/Saved.antt =====
-- What frontend/src/pages/dashboards/ShareDialog.tsx shows when it is opened on what it saved.
use industry_dashboard.Base.{
  ◌≡◌, refl, ap, subst, ◌∙◌, inl, inr, ◌⊎◌, true, false, ◌||◌, List, [], ◌∷◌, map, All, includes,
  Distinct, Option, none, some, Codes, ◌==◌, codes_eq, eq_of_==, ==_refl, arith, if◌then◌else◌,
  Bool-cases,
}
use industry_dashboard.Dashboards.Share.{
  AccessLevel, no_access, view, edit, Access, set, get, or_no_access, shown_level, set_all,
  loaded_map, is_access, sent_access, Dialog, Event, load, pick, save, resolved, rejected, close,
  initial, step, run,
}

abbrev roles : List Access → List Codes
roles m = map (λ a. a.role_id) m

get_of_not_includes : (r : Codes) (m : List Access) → includes r (roles m) ≡ false → get r m ≡ none
unfolding get
get_of_not_includes r [] h = refl
get_of_not_includes r (a ∷ m) h = ground (arith, get_of_not_includes r m)

-- How the three keys of a step compare.
compare : (a k r : Codes) → ((a == k) ≡ true) → (a == r) ≡ (k == r)
compare a k r h = ap (λ x. x == r) (eq_of_== a k h)

==_comm_false : (a k : Codes) → (a == k) ≡ false → (k == a) ≡ false
==_comm_false a k h = elim (Bool-cases (k == a)) [
  | inl e ↦ absurd (cc (h, eq_of_== k a e, ==_refl a))
  | inr e ↦ e
]

-- A key is not two others at once.
apart : (a k r : Codes) → (a == k) ≡ false → ((a == r) ≡ false) ⊎ ((k == r) ≡ false)
apart a k r h = elim (Bool-cases (a == r)) [
  | inl e ↦ inr (==_comm_false r k (subst (λ x. (x == k) ≡ false) (eq_of_== a r e) h))
  | inr e ↦ inl e
]

includes-set :
    (r k : Codes) (v : AccessLevel) (m : List Access)
    → includes r (roles (set k v m)) ≡ (k == r || includes r (roles m))
unfolding set
includes-set r k v [] = refl
includes-set r k v (a ∷ m) = elim (Bool-cases (a.role_id == k)) [
  | inl e ↦ rw e (ground (arith, compare a.role_id k r e))
  | inr e ↦ rw e (ground (arith, includes-set r k v m))
]

Distinct-set :
    (k : Codes) (v : AccessLevel) (m : List Access)
    → Distinct (roles m)
    → Distinct (roles (set k v m))
unfolding set
Distinct-set k v [] d = (refl, tt)
Distinct-set k v (a ∷ m) (n, d) = elim (Bool-cases (a.role_id == k)) [
  | inl e ↦ rw e (n, d)
  | inr e ↦
      let other : (k == a.role_id) ≡ false = ==_comm_false a.role_id k e in
      rw e (rw (includes-set a.role_id k v m, other, n) refl, Distinct-set k v m d)
]

get-set :
    (r k : Codes) (v : AccessLevel) (m : List Access)
    → get r (set k v m) ≡ (if k == r then some v else get r m)
unfolding set get
get-set r k v [] = refl
get-set r k v (a ∷ m) = elim (Bool-cases (a.role_id == k)) [
  | inl e ↦ rw e (ground (arith, compare a.role_id k r e))
  | inr e ↦ rw e (ground (arith, get-set r k v m, apart a.role_id k r e))
]

abbrev or_else : Option AccessLevel → Option AccessLevel → Option AccessLevel
or_else none b = b
or_else (some a) b = some a

get-set_all :
    (r : Codes) (m ms : List Access)
    → Distinct (roles ms)
    → get r (set_all m ms) ≡ or_else (get r ms) (get r m)
unfolding set_all get
get-set_all r m [] d = refl
get-set_all r m (a ∷ ms) (n, d) =
    get-set_all r (set a.role_id a.access_level m) ms d ∙ elim (Bool-cases (a.role_id == r)) [
      | inl e ↦
          let out : get r ms ≡ none =
            get_of_not_includes r ms
              (subst (λ x. includes x (roles ms) ≡ false) (eq_of_== a.role_id r e) n) in
          rw (get-set r a.role_id a.access_level m, e, out) refl
      | inr e ↦ rw (get-set r a.role_id a.access_level m, e) refl
    ]

set_all-Distinct : (m ms : List Access) → Distinct (roles m) → Distinct (roles (set_all m ms))
unfolding set_all
set_all-Distinct m [] d = d
set_all-Distinct m (a ∷ ms) d =
    set_all-Distinct (set a.role_id a.access_level m) ms (Distinct-set a.role_id a.access_level m d)

includes-sent :
    (r : Codes) (m : List Access)
    → includes r (roles m) ≡ false
    → includes r (roles (sent_access m)) ≡ false
unfolding sent_access
includes-sent r [] h = refl
includes-sent r (a ∷ m) h = ground (arith, includes-sent r m)

sent-Distinct : (m : List Access) → Distinct (roles m) → Distinct (roles (sent_access m))
unfolding sent_access
sent-Distinct [] d = tt
sent-Distinct (a ∷ m) (n, d) = elim (Bool-cases (is_access a.access_level)) [
  | inl e ↦ rw e (includes-sent a.role_id m n, sent-Distinct m d)
  | inr e ↦ rw e (sent-Distinct m d)
]

sent-is_access : (m : List Access) → All (λ a. is_access a.access_level ≡ true) (sent_access m)
unfolding sent_access
sent-is_access [] = tt
sent-is_access (a ∷ m) = elim (Bool-cases (is_access a.access_level)) [
  | inl e ↦ rw e (e, sent-is_access m)
  | inr e ↦ rw e (sent-is_access m)
]

no_access_of : (v : AccessLevel) → is_access v ≡ false → v ≡ no_access
no_access_of no_access h = refl
no_access_of view h = cc
no_access_of edit h = cc

shown_level-sent :
    (r : Codes) (m : List Access)
    → Distinct (roles m)
    → shown_level r (sent_access m) ≡ shown_level r m
unfolding shown_level sent_access get
shown_level-sent r [] d = refl
shown_level-sent r (a ∷ m) (n, d) = elim (Bool-cases (is_access a.access_level)) [
  | inl e ↦ elim (Bool-cases (a.role_id == r)) [
    | inl k ↦ rw (e, k) refl
    | inr k ↦ rw (e, k) (shown_level-sent r m d)
  ]
  | inr e ↦ elim (Bool-cases (a.role_id == r)) [
    | inl k ↦
        let out : get r (sent_access m) ≡ none = get_of_not_includes r (sent_access m) (
          subst (λ x. includes x (roles (sent_access m)) ≡ false) (eq_of_== a.role_id r k)
            (includes-sent a.role_id m n)) in
        rw (e, k, out, no_access_of a.access_level e) refl
    | inr k ↦ rw (e, k) (shown_level-sent r m d)
  ]
]

or_else-none : (o : Option AccessLevel) → or_else o none ≡ o
or_else-none none = refl
or_else-none (some a) = refl

shown_level-loaded_map :
    (r : Codes) (ms : List Access)
    → Distinct (roles ms)
    → shown_level r (loaded_map ms) ≡ shown_level r ms
unfolding shown_level loaded_map get
shown_level-loaded_map r ms d = ap or_no_access (get-set_all r [] ms d ∙ or_else-none (get r ms))

save-Distinct :
    (d : Dialog) → Distinct (roles d.access_map) → Distinct (roles (step save d).0.access_map)
unfolding step
save-Distinct d h = elim (Bool-cases d.pending) [ inl e ↦ rw e h | inr e ↦ rw e h ]

run-Distinct :
    (es : List Event) (d : Dialog)
    → Distinct (roles d.access_map)
    → Distinct (roles (run es d).access_map)
unfolding run step loaded_map
run-Distinct [] d h = h
run-Distinct (load current ∷ es) d h =
    run-Distinct es (step (load current) d).0 (set_all-Distinct [] current tt)
run-Distinct (pick role level ∷ es) d h =
    run-Distinct es (step (pick role level) d).0
      (Distinct-set role (or_no_access level) d.access_map h)
run-Distinct (save ∷ es) d h = run-Distinct es (step save d).0 (save-Distinct d h)
run-Distinct (resolved ∷ es) d h = run-Distinct es (step resolved d).0 h
run-Distinct (rejected ∷ es) d h = run-Distinct es (step rejected d).0 h
run-Distinct (close ∷ es) d h = run-Distinct es (step close d).0 h

-- However the dialog for sharing is used from its first state, the list that Save would send has each role at most
-- once and none without access, and a dialog opened on that list shows for every role the level that was shown.
pub shown_level-saved :
    (es : List Event)
    → let m = (run es initial).access_map in
      Distinct (map (λ a. a.role_id) (sent_access m))
      × All (λ a. is_access a.access_level ≡ true) (sent_access m)
      × ((r : Codes) → shown_level r (loaded_map (sent_access m)) ≡ shown_level r m)
shown_level-saved es =
    let m = (run es initial).access_map in
    let d : Distinct (roles m) = run-Distinct es initial tt in
    (
      sent-Distinct m d,
      sent-is_access m,
      λ r. shown_level-loaded_map r (sent_access m) (sent-Distinct m d) ∙ shown_level-sent r m d,
    )
