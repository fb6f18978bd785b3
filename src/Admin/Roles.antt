-- ===== src/Admin/Roles.antt =====
-- The form of RolesPage.tsx for a new role, and its groups of permissions.
use industry_dashboard.Base.{
  ◌≡◌, sym, append-nil, append_assoc, Bool, String, List, [], ◌∷◌, ◌++◌, filter, toggle, Option,
  none, some, ◌==◌, string_eq, ==_iff, arith, if◌then◌else◌,
}

pub record Page : Type 0 where
  pub expanded_role : Option String
  pub new_name : String
  pub new_desc : String
  pub selected_perms : List String

abbrev pub initial : Page
initial = record { expanded_role = none; new_name = ""; new_desc = ""; selected_perms = [] }

pub record CreateRole : Type 0 where
  pub name : String
  pub description : String
  pub permission_ids : List String

-- `handleCreate`; the answer is `true` if the mutation is resolved
unfoldable pub handle_create : Bool → Page → Page × Option CreateRole
handle_create answer p = if p.new_name == "" then (p, none) else (
  if answer then record p { new_name = ""; new_desc = ""; selected_perms = [] } else p,
  some (record { name = p.new_name; description = p.new_desc; permission_ids = p.selected_perms }),
)

toggle_perm : String → Page → Page
unfolding toggle
toggle_perm id p = record p { selected_perms = toggle id p.selected_perms }

toggle_role : String → Page → Page
toggle_role id p = record p {
  expanded_role = elim p.expanded_role [
    | none ↦ some id
    | some r ↦ if r == id then none else some id
  ];
}

pub data Event : Type 0 where
  type_name type_desc : String → Event
  check : String → Event
  create : (answer : Bool) → Event
  show : String → Event

unfoldable pub step : Event → Page → Page × Option CreateRole
unfolding handle_create toggle_perm toggle_role
step (type_name v) p = (record p { new_name = v }, none)
step (type_desc v) p = (record p { new_desc = v }, none)
step (check id) p = (toggle_perm id p, none)
step (create answer) p = handle_create answer p
step (show id) p = (toggle_role id p, none)

unfoldable pub run : List Event → Page → Page × List (Option CreateRole)
unfolding step
run [] p = (p, [])
run (e ∷ es) p = let (q, c) = step e p in let (r, cs) = run es q in (r, c ∷ cs)

pub record Permission : Type 0 where
  pub id : String
  pub code : String
  pub group_name : String

abbrev Groups : Type 0
Groups = List (String × List Permission)

-- `(acc[g] = acc[g] || []).push(p)`
push : Permission → Groups → Groups
push p [] = (p.group_name, p ∷ []) ∷ []
push p ((g, ps) ∷ gs) =
    let rest = push p gs in if g == p.group_name then (g, ps ++ p ∷ []) ∷ gs else (g, ps) ∷ rest

-- `permissions.reduce`, from an accumulator
group_from : Groups → List Permission → Groups
unfolding push
group_from acc [] = acc
group_from acc (p ∷ ps) = group_from (push p acc) ps

pub perm_groups : List Permission → Groups
unfolding group_from
perm_groups ps = group_from [] ps

-- the permissions of a group; a group that is not there has none
abbrev pub members : String → Groups → List Permission
members g [] = []
members g ((h, ps) ∷ gs) = let rest = members g gs in if h == g then ps else rest

members-push :
    (g : String) (p : Permission) (gs : Groups)
    → members g (push p gs) ≡ (if p.group_name == g then members g gs ++ p ∷ [] else members g gs)
unfolding push
members-push g p [] = ground arith
members-push g p ((h, ps) ∷ gs) =
    ground (arith, members-push g p gs, ==_iff h p.group_name, ==_iff p.group_name g, ==_iff h g)

members-group_from :
    (g : String) (acc : Groups) (ps : List Permission)
    → members g (group_from acc ps) ≡ members g acc ++ filter (λ p. p.group_name == g) ps
unfolding group_from
members-group_from g acc [] = sym (append-nil (members g acc))
members-group_from g acc (p ∷ ps) =
    let kept = filter (λ q. q.group_name == g) ps in
    ground (
      arith,
      members-group_from g (push p acc) ps,
      members-push g p acc,
      append_assoc (members g acc) (p ∷ []) kept,
    )

-- The permissions under the heading of a group are those with its name, in their order.
pub members-perm_groups :
    (g : String) (ps : List Permission)
    → members g (perm_groups ps) ≡ filter (λ p. p.group_name == g) ps
unfolding perm_groups
members-perm_groups g ps = members-group_from g [] ps
