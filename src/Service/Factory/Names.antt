-- ===== src/Service/Factory/Names.antt =====
-- What a name leads to after registrations: the factory of network/service/service_meta.hpp keeps
-- names and types in two maps.
use network_core.Common.{
  ℕ, suc, ◌≡◌, refl, sym, ap, subst, ◌∙◌, Bool, true, false, ◌||◌, Option, none, some, List, [],
  ◌∷◌, ◌==◌, if◌then◌else◌, arith, Bool-cases, inl, inr,
}
use network_core.Service.TypeMap.{
  find_type, or_else, emplaced, sorted_end, Sorted-weaken, find_type-below,
}
use network_core.Service.Helper.{Service}
use network_core.Service.Factory.{
  ServiceFactory, new_factory, same_name, find_name, emplace_name, get_service_by_type,
  get_service_by_name, get_service_typeid, id_or_zero,
}
use network_core.Service.Factory.Registered.{
  Request, requested, run_request, run_requests, or_else-none, or_else_assoc, Added, old, added,
  run_request-Added, find_type-Added, pick, there, own, id_of, Known, Known-Added,
  Known-run_requests, Valid, valid_end, valid_more,
}

unfoldable pub has_type : ℕ → List ℕ → Bool
has_type id [] = false
has_type id (other ∷ seen) = (id == other) || has_type id seen

-- the service of the first request under the name whose type no request before it had; `seen` has
-- the types that were requested
unfoldable pub first_named : List ℕ → List ℕ → List Request → Option Service
unfolding requested has_type same_name
first_named name seen [] = none
first_named name seen (r ∷ rs) =
    let s = requested r in
    let repeated = first_named name seen rs in
    let other = first_named name (s.type_id ∷ seen) rs in
    if has_type s.type_id seen then repeated else if same_name name s.name then some s else other

same_name-eq : (a b : List ℕ) → same_name a b ≡ true → a ≡ b
unfolding same_name
same_name-eq [] [] h = refl
same_name-eq [] (d ∷ b) h = ground (arith, h)
same_name-eq (c ∷ a) [] h = ground (arith, h)
same_name-eq (c ∷ a) (d ∷ b) h =
    let first : c ≡ d = ground (arith, h) in
    let rest = same_name-eq a b (ground (arith, h)) in λ i. first i ∷ rest i

-- what `emplace_name` adds for one name
abbrev named : List ℕ → ℕ → List ℕ → Option ℕ
named name id q = if same_name q name then some id else none

-- a name that is there keeps its type, and one that is not gets the new one
find_name-emplace_name_all :
    (q name : List ℕ) (id : ℕ) (m : List (List ℕ × ℕ))
    → find_name q (emplace_name name id m) ≡ or_else (find_name q m) (named name id q)
unfolding find_name emplace_name or_else
find_name-emplace_name_all q name id [] = refl
find_name-emplace_name_all q name id ((other, i) ∷ m) = elim (Bool-cases (same_name name other)) [
  | inl e ↦
      ap
        (λ (b : Bool).
          find_name q (if b then (other, i) ∷ m else (other, i) ∷ emplace_name name id m))
        e
      ∙ kept (same_name-eq name other e)
  | inr e ↦
      ap
        (λ (b : Bool).
          find_name q (if b then (other, i) ∷ m else (other, i) ∷ emplace_name name id m))
        e
      ∙ behind (same_name q other) (find_name-emplace_name_all q name id m)
]
  where
    kept :
        name ≡ other
        → (if same_name q other then some i else find_name q m)
          ≡ or_else (if same_name q other then some i else find_name q m) (named name id q)
    kept e =
        subst
          (λ n.
            (if same_name q other then some i else find_name q m)
            ≡ or_else (if same_name q other then some i else find_name q m) (named n id q))
          (sym e) (alike (same_name q other))
      where
        alike :
            (b : Bool)
            → (if b then some i else find_name q m)
              ≡ or_else (if b then some i else find_name q m) (if b then some id else none)
        alike true = refl
        alike false = sym (or_else-none (find_name q m))

    behind :
        (b : Bool)
        → find_name q (emplace_name name id m) ≡ or_else (find_name q m) (named name id q)
        → (if b then some i else find_name q (emplace_name name id m))
          ≡ or_else (if b then some i else find_name q m) (named name id q)
    behind true ih = refl
    behind false ih = ih

-- the service of the type that a name has, if it has one
look : Option ℕ → List (ℕ × Service) → Option Service
unfolding find_type id_or_zero
look o m = find_type (id_or_zero o) m

-- what a name leads to when a new type is registered
get_service_by_name-added :
    (name : List ℕ) (s : Service) (f f' : ServiceFactory)
    → Known f
    → Known f'
    → find_type s.type_id f.service_map ≡ none
    → f'.name_map ≡ emplace_name s.name s.type_id f.name_map
    → ((q : ℕ)
        → find_type q f'.service_map ≡ or_else (find_type q f.service_map) (emplaced s.type_id s q))
    → get_service_by_name name f'
      ≡ or_else (get_service_by_name name f) (if same_name name s.name then some s else none)
unfolding get_service_by_name get_service_by_type get_service_typeid look id_or_zero or_else
get_service_by_name-added name s f f' k k' fresh names types =
    ap (λ o. look o f'.service_map)
      (ap (find_name name) names ∙ find_name-emplace_name_all name s.name s.type_id f.name_map)
    ∙ found (find_name name f.name_map) (same_name name s.name) refl
  where
    nothing : (g : ServiceFactory) → Known g → look none g.service_map ≡ none
    nothing g l = find_type-below 0 1 g.service_map (omega arith) l.sorted

    found :
        (o : Option ℕ) (b : Bool)
        → find_name name f.name_map ≡ o
        → look (or_else o (if b then some s.type_id else none)) f'.service_map
          ≡ or_else (look o f.service_map) (if b then some s else none)
    found none true e =
        types s.type_id
        ∙ (ap (λ x. or_else x (emplaced s.type_id s s.type_id)) fresh ∙ own s.type_id s)
        ∙ sym (ap (λ x. or_else x (some s)) (nothing f k))
    found none false e =
        nothing f' k' ∙ sym (ap (λ (x : Option Service). or_else x none) (nothing f k))
    found (some i) b e =
        let (t, h) = k.names name i e in
        let more : Option Service = if b then some s else none in
        types i
        ∙ ap (λ x. or_else x (emplaced s.type_id s i)) h
        ∙ there t (emplaced s.type_id s i)
        ∙ sym (there t more)
        ∙ sym (ap (λ x. or_else x more) h)

unfoldable is_there : Option Service → Bool
is_there none = false
is_there (some s) = true

-- the types that were requested are the types that the factory has
Seen : List ℕ → ServiceFactory → Type 0
Seen seen f = (q : ℕ) → has_type q seen ≡ is_there (find_type q f.service_map)

is_there-emplaced :
    (q id : ℕ) (s : Service) (o : Option Service)
    → is_there (or_else o (emplaced id s q)) ≡ ((q == id) || is_there o)
unfolding is_there or_else emplaced
is_there-emplaced q id s none = ground arith
is_there-emplaced q id s (some t) = ground arith

name_request :
    (name : List ℕ) (r : Request) (rs : List Request) (f f' : ServiceFactory) (seen : List ℕ)
    → Known f
    → Known f'
    → Seen seen f
    → Added (requested r) f f'
    → ((g : ServiceFactory) (now : List ℕ)
        → Known g
        → Seen now g
        → get_service_by_name name (run_requests rs g)
          ≡ or_else (get_service_by_name name g) (first_named name now rs))
    → get_service_by_name name (run_requests rs f')
      ≡ or_else (get_service_by_name name f) (first_named name seen (r ∷ rs))
unfolding first_named Seen has_type is_there
name_request name r rs f f' seen k k' v (old t h e) next =
    let s = requested r in
    let known : has_type s.type_id seen ≡ true = v s.type_id ∙ ap is_there h in
    let other = first_named name (s.type_id ∷ seen) rs in
    ap (λ g. get_service_by_name name (run_requests rs g)) e
    ∙ next f seen k v
    ∙ sym (
        ap
          (λ b. or_else (get_service_by_name name f) (
            if b
            then first_named name seen rs
            else if same_name name s.name
            then some s
            else other))
          known)
name_request name r rs f f' seen k k' v (added h e n) next =
    let s = requested r in
    let sorted = Sorted-weaken 1 0 f.service_map (omega arith) k.sorted in
    let types = find_type-Added s f f' sorted (added h e n) in
    let new : has_type s.type_id seen ≡ false = v s.type_id ∙ ap is_there h in
    let other = first_named name (s.type_id ∷ seen) rs in
    let before = get_service_by_name name f in
    let seen_now : Seen (s.type_id ∷ seen) f' = λ q.
      ap (λ b. (q == s.type_id) || b) (v q)
      ∙ sym (ap is_there (types q) ∙ is_there-emplaced q s.type_id s (find_type q f.service_map)) in
    next f' (s.type_id ∷ seen) k' seen_now
    ∙ ap (λ o. or_else o other) (get_service_by_name-added name s f f' k k' h n types)
    ∙ or_else_assoc before (if same_name name s.name then some s else none) other
    ∙ ap (or_else before) (sym (pick (same_name name s.name) s other))
    ∙ sym (
        ap
          (λ b. or_else before (
            if b
            then first_named name seen rs
            else if same_name name s.name
            then some s
            else other))
          new)

get_service_by_name-run :
    (name : List ℕ) (rs : List Request) (f : ServiceFactory) (seen : List ℕ)
    → Valid rs
    → Known f
    → Seen seen f
    → get_service_by_name name (run_requests rs f)
      ≡ or_else (get_service_by_name name f) (first_named name seen rs)
unfolding run_requests first_named
get_service_by_name-run name [] f seen valid_end k v =
    sym (or_else-none (get_service_by_name name f))
get_service_by_name-run name (r ∷ rs) f seen (valid_more l w) k v =
    let f' = run_request r f in
    let a = run_request-Added r f in
    name_request name r rs f f' seen k (Known-Added (requested r) f f' l k a) v a
      (λ g now. get_service_by_name-run name rs g now w)

new_factory-Known : Known new_factory
unfolding new_factory find_type find_name id_of
new_factory-Known = record {
  sorted = sorted_end;
  ids = λ q s h. absurd (omega (arith, ap (id_of (suc s.type_id)) h));
  names = λ name id h. absurd (ground (arith, h));
}

-- After any registrations of types with positive ids, of whatever kind and order, a name leads to
-- the service of the first request under that name whose type no earlier request had, and to none
-- if there is no such request; and each service is kept under its own type.
pub get_service_by_name-run_requests :
    (rs : List Request)
    → Valid rs
    → Known (run_requests rs new_factory)
      × ((name : List ℕ)
          → get_service_by_name name (run_requests rs new_factory) ≡ first_named name [] rs)
unfolding get_service_by_name get_service_by_type get_service_typeid id_or_zero new_factory
    find_type find_name or_else Seen has_type is_there
get_service_by_name-run_requests rs v = (
  Known-run_requests rs new_factory v new_factory-Known,
  λ name. get_service_by_name-run name rs new_factory [] v new_factory-Known (λ q. refl),
)
