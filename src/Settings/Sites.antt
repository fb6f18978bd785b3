-- ===== src/Settings/Sites.antt =====
-- frontend/src/lib/site-context.tsx. `stored` is the entry of `localStorage` for the current site.
use industry_dashboard.Base.{
  Bool, true, false, ◌≡◌, ◌⊎◌, inl, inr, refl, sym, ap, ◌∙◌, subst, String, List, [], ◌∷◌, All, any,
  find?, find?_complete, Option, none, some, ◌==◌, string_eq, ==_iff,
}

pub record Site : Type 0 where
  pub id : String
  pub name : String
  pub code : String
  pub timezone : String

pub record Provider : Type 0 where
  pub sites : List Site
  pub current_site : Option Site
  pub loading : Bool
  pub stored : Option String

abbrev pub mount : Option String → Provider
mount stored = record { sites = []; current_site = none; loading = true; stored = stored }

-- how the request for the sites ends: without an answer, with a refusal, or with sites or `null`
pub data Answer : Type 0 where
  failed refused : Answer
  listed : Option (List Site) → Answer

-- `s.id === saved`
abbrev is_saved : Option String → Site → Bool
is_saved none s = false
is_saved (some id) s = s.id == id

-- `prev ?? match ?? data[0]`
abbrev choose : (prev match : Option Site) → Site → Site
choose (some p) match first = p
choose none (some m) first = m
choose none none first = first

-- the callback of the second `then`
on_sites : List Site → Provider → Provider
on_sites [] p = record p { sites = [] }
on_sites (s ∷ ss) p = record p {
  sites = s ∷ ss;
  current_site = some (choose p.current_site (find? (is_saved p.stored) (s ∷ ss)) s);
}

-- `fetchSites`, when it ends
fetched : Answer → Provider → Provider
unfolding on_sites
fetched failed p = record p { loading = false }
fetched refused p = record (on_sites [] p) { loading = false }
fetched (listed none) p = record (on_sites [] p) { loading = false }
fetched (listed (some ss)) p = record (on_sites ss p) { loading = false }

-- `handleSetSite`
set_site : Site → Provider → Provider
set_site s p = record p { current_site = some s; stored = some s.id }

pub data Event : Type 0 where
  fetch : Answer → Event
  pick : Site → Event
  reload : Event

unfoldable pub step : Event → Provider → Provider
unfolding fetched set_site
step (fetch a) p = fetched a p
step (pick s) p = set_site s p
step reload p = mount p.stored

unfoldable pub run : List Event → Provider → Provider
unfolding step
run [] p = p
run (e ∷ es) p = run es (step e p)

-- No event is a pick, and every list of sites that is answered is empty or has the site.
abbrev KeepsSite : String → Event → Type 0
KeepsSite id (fetch (listed (some (s ∷ ss)))) = any (λ t. t.id == id) (s ∷ ss) ≡ true
KeepsSite id (fetch _) = Unit
KeepsSite id (pick s) = ⊥
KeepsSite id reload = Unit

-- The site is stored, and no other one is shown.
abbrev pub IsOn : String → Provider → Type 0
IsOn id p =
    (p.stored ≡ some id)
    × ((p.current_site ≡ none) ⊎ ((t : Site) × (p.current_site ≡ some t) × (t.id ≡ id)))

on_sites-IsOn :
    (id : String) (ss : List Site) (p : Provider)
    → KeepsSite id (fetch (listed (some ss)))
    → IsOn id p
    → IsOn id (on_sites ss p)
unfolding on_sites
on_sites-IsOn id [] p k i = i
on_sites-IsOn id (s ∷ ss) p k (st, inr (t, e, et)) = (st, inr (t, rw e refl, et))
on_sites-IsOn id (s ∷ ss) p k (st, inl e) =
    let (t, found, same) = find?_complete (λ t. t.id == id) (s ∷ ss) k in
    let match : find? (is_saved p.stored) (s ∷ ss) ≡ some t =
      subst (λ o. find? (is_saved o) (s ∷ ss) ≡ some t) (sym st) found in
    let shown : choose p.current_site (find? (is_saved p.stored) (s ∷ ss)) s ≡ t =
      ap (λ c. choose c (find? (is_saved p.stored) (s ∷ ss)) s) e
      ∙ ap (λ o. choose none o s) match in
    (st, inr (t, ap some shown, (==_iff t.id id).0 same))

step-IsOn :
    (id : String) (e : Event) (p : Provider) → KeepsSite id e → IsOn id p → IsOn id (step e p)
unfolding step fetched
step-IsOn id (fetch failed) p k i = i
step-IsOn id (fetch refused) p k i = on_sites-IsOn id [] p tt i
step-IsOn id (fetch (listed none)) p k i = on_sites-IsOn id [] p tt i
step-IsOn id (fetch (listed (some []))) p k i = on_sites-IsOn id [] p tt i
step-IsOn id (fetch (listed (some (s ∷ ss)))) p k i = on_sites-IsOn id (s ∷ ss) p k i
step-IsOn id (pick s) p k i = absurd k
step-IsOn id reload p k i = (i.0, inl refl)

run-IsOn :
    (id : String) (es : List Event) (p : Provider)
    → All (KeepsSite id) es
    → IsOn id p
    → IsOn id (run es p)
unfolding run
run-IsOn id [] p k i = i
run-IsOn id (e ∷ es) p k i = run-IsOn id es (step e p) k.1 (step-IsOn id e p k.0 i)

-- After a site is picked, as long as no other one is picked and every list of sites that the server
-- answers is empty or has the site, the site stays stored and no other one is shown, whatever is
-- fetched and however often the page is loaded again.
pub run-pick :
    (s : Site) (es : List Event) (p : Provider)
    → All (KeepsSite s.id) es
    → IsOn s.id (run (pick s ∷ es) p)
unfolding run step set_site
run-pick s es p k = run-IsOn s.id es (set_site s p) k (refl, inr (s, refl, refl))
