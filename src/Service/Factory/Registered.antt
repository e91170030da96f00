-- ===== src/Service/Factory/Registered.antt =====
-- What the factory knows after registrations: the first one of a type stays.
use network_core.Common.{
  ℕ, suc, ◌≤◌, ◌≡◌, refl, sym, ap, subst, ◌∙◌, Bool, true, false, ◌⊎◌, Option, none, some, List, [],
  ◌∷◌, ◌==◌, if◌then◌else◌, arith, Bool-cases, inl, inr,
}
use network_core.Service.TypeMap.{
  find_type, emplace, or_else, emplaced, Sorted, sorted_end, Sorted-emplace, Sorted-weaken,
  find_type-emplace,
}
use network_core.Service.Helper.{Service}
use network_core.Service.Factory.{
  ServiceFactory, new_factory, same_name, find_name, emplace_name, add_service, when_new,
  register_service, register_derived_service, reg_inter_service, get_service_by_type,
}

-- the ways to register
pub data Request : Type 0 where
  plain : Service → Request
  derived : ℕ → Service → Request
  inter : Service → Request

unfoldable pub run_request : Request → ServiceFactory → ServiceFactory
unfolding register_service register_derived_service reg_inter_service
run_request (plain s) f = register_service s f
run_request (derived base s) f = register_derived_service base s f
run_request (inter s) f = (reg_inter_service s f).1

unfoldable pub run_requests : List Request → ServiceFactory → ServiceFactory
unfolding run_request
run_requests [] f = f
run_requests (r ∷ rs) f = run_requests rs (run_request r f)

unfoldable pub requested : Request → Service
requested (plain s) = s
requested (derived base s) = s
requested (inter s) = s

-- the service of the first request for a type
unfoldable pub first_requested : ℕ → List Request → Option Service
unfolding requested
first_requested id [] = none
first_requested id (r ∷ rs) =
    let rest = first_requested id rs in
    if id == (requested r).type_id then some (requested r) else rest

pub or_else-none : {A : Type 0} (o : Option A) → or_else o none ≡ o
unfolding or_else
or_else-none none = refl
or_else-none (some a) = refl

pub or_else_assoc :
    {A : Type 0} (a b c : Option A) → or_else (or_else a b) c ≡ or_else a (or_else b c)
unfolding or_else
or_else_assoc none b c = refl
or_else_assoc (some x) b c = refl

-- a registration that finds the type changes nothing
emplaced_there :
    (q id : ℕ) (s old : Service) (o : Option Service)
    → (q ≡ id → o ≡ some old)
    → or_else o (emplaced id s q) ≡ o
unfolding or_else emplaced
emplaced_there q id s old o h = elim (Bool-cases (q == id)) [
  | inl e ↦
      ap (λ r. or_else r (if q == id then some s else none)) (h (ground (arith, e)))
      ∙ sym (h (ground (arith, e)))
  | inr e ↦ ap (λ (b : Bool). or_else o (if b then some s else none)) e ∙ or_else-none o
]

-- a registration of `s`: the type was there and nothing changes, or it is added
pub data Added (s : Service) (f : ServiceFactory) (f' : ServiceFactory) : Type 0 where
  old : (t : Service) → find_type s.type_id f.service_map ≡ some t → f' ≡ f → Added s f f'
  added :
      find_type s.type_id f.service_map ≡ none
      → f'.service_map ≡ emplace s.type_id s f.service_map
      → f'.name_map ≡ emplace_name s.name s.type_id f.name_map
      → Added s f f'

when_new-Added :
    (s : Service) (o : Option Service) (g f : ServiceFactory)
    → find_type s.type_id f.service_map ≡ o
    → g.service_map ≡ emplace s.type_id s f.service_map
    → g.name_map ≡ emplace_name s.name s.type_id f.name_map
    → Added s f (when_new o g f)
unfolding when_new
when_new-Added s none g f h e n = added h e n
when_new-Added s (some t) g f h e n = old t h refl

pub run_request-Added : (r : Request) (f : ServiceFactory) → Added (requested r) f (run_request r f)
unfolding run_request requested register_service register_derived_service reg_inter_service
    add_service
run_request-Added (plain s) f = when_new-Added s _ (add_service s f) f refl refl refl
run_request-Added (derived base s) f = when_new-Added s _ _ f refl refl refl
run_request-Added (inter s) f = when_new-Added s _ (add_service s f) f refl refl refl

-- what a type has after a registration
pub find_type-Added :
    (s : Service) (f f' : ServiceFactory)
    → Sorted 0 f.service_map
    → Added s f f'
    → (q : ℕ)
    → find_type q f'.service_map ≡ or_else (find_type q f.service_map) (emplaced s.type_id s q)
find_type-Added s f f' sorted (added h e n) q =
    ap (find_type q) e ∙ find_type-emplace q s.type_id 0 s f.service_map sorted
find_type-Added s f f' sorted (old t h e) q =
    ap (λ (g : ServiceFactory). find_type q g.service_map) e
    ∙ sym (
        emplaced_there q s.type_id s t (find_type q f.service_map)
          (λ same. ap (λ k. find_type k f.service_map) same ∙ h))

Sorted-Added :
    (b : ℕ) (s : Service) (f f' : ServiceFactory)
    → b ≤ s.type_id
    → Sorted b f.service_map
    → Added s f f'
    → Sorted b f'.service_map
Sorted-Added b s f f' l sorted (added h e n) =
    subst (Sorted b) (sym e) (Sorted-emplace b s.type_id s f.service_map l sorted)
Sorted-Added b s f f' l sorted (old t h e) =
    subst (λ (g : ServiceFactory). Sorted b g.service_map) (sym e) sorted

pub pick :
    (b : Bool) (s : Service) (o : Option Service)
    → (if b then some s else o) ≡ or_else (if b then some s else none) o
unfolding or_else
pick true s o = refl
pick false s o = refl

first_requested-cons :
    (q : ℕ) (r : Request) (rs : List Request)
    → first_requested q (r ∷ rs)
      ≡ or_else (emplaced (requested r).type_id (requested r) q) (first_requested q rs)
unfolding first_requested or_else emplaced
first_requested-cons q r rs = pick (q == (requested r).type_id) (requested r) (first_requested q rs)

find_type-run_requests :
    (q : ℕ) (rs : List Request) (f : ServiceFactory)
    → Sorted 0 f.service_map
    → find_type q (run_requests rs f).service_map
      ≡ or_else (find_type q f.service_map) (first_requested q rs)
unfolding run_requests first_requested
find_type-run_requests q [] f sorted = sym (or_else-none (find_type q f.service_map))
find_type-run_requests q (r ∷ rs) f sorted =
    let f' = run_request r f in
    let a = run_request-Added r f in
    find_type-run_requests q rs f' (Sorted-Added 0 (requested r) f f' (omega arith) sorted a)
    ∙ (ap (λ o. or_else o (first_requested q rs)) (find_type-Added (requested r) f f' sorted a q)
        ∙ (or_else_assoc (find_type q f.service_map) _ (first_requested q rs)
            ∙ ap (or_else (find_type q f.service_map)) (sym (first_requested-cons q r rs))))

-- After any registrations, of whatever kind and order, the factory has for each type the service of
-- the first request for it, and none where there was no request.
pub get_service_by_type-run_requests :
    (q : ℕ) (rs : List Request)
    → get_service_by_type q (run_requests rs new_factory) ≡ first_requested q rs
unfolding get_service_by_type new_factory find_type or_else
get_service_by_type-run_requests q rs = find_type-run_requests q rs new_factory sorted_end

-- every registered type has a positive id, which is that of its service, and every name a type that
-- is registered
pub record Known (f : ServiceFactory) : Type 0 where
  pub sorted : Sorted 1 f.service_map
  pub ids : (q : ℕ) (s : Service) → find_type q f.service_map ≡ some s → s.type_id ≡ q
  pub names :
      (name : List ℕ) (id : ℕ)
      → find_name name f.name_map ≡ some id
      → (s : Service) × (find_type id f.service_map ≡ some s)

-- requests for positive ids
pub data Valid : List Request → Type 0 where
  valid_end : Valid []
  valid_more :
      {r : Request} {rs : List Request} → 1 ≤ (requested r).type_id → Valid rs → Valid (r ∷ rs)

find_name-emplace_name :
    (q name : List ℕ) (id k : ℕ) (m : List (List ℕ × ℕ))
    → find_name q (emplace_name name id m) ≡ some k
    → (find_name q m ≡ some k) ⊎ (id ≡ k)
unfolding find_name emplace_name
find_name-emplace_name q name id k [] h = ground (arith, h)
find_name-emplace_name q name id k ((other, i) ∷ m) h =
    let later = find_name q (emplace_name name id m) in
    let Goal = (find_name q ((other, i) ∷ m) ≡ some k) ⊎ (id ≡ k) in
    elim (Bool-cases (same_name name other)) [
      | inl e ↦ inl (
          sym (
            ap
              (λ (b : Bool).
                find_name q (if b then (other, i) ∷ m else (other, i) ∷ emplace_name name id m))
              e)
          ∙ h)
      | inr e ↦
          behind (same_name q other) i (find_name q m) later
            (sym (
                ap
                  (λ (b : Bool).
                    find_name q (if b then (other, i) ∷ m else (other, i) ∷ emplace_name name id m))
                  e)
              ∙ h)
            (λ g. find_name-emplace_name q name id k m g)
    ]
  where
    behind :
        (b : Bool) (i' : ℕ) (o later : Option ℕ)
        → (if b then some i' else later) ≡ some k
        → (later ≡ some k → (o ≡ some k) ⊎ (id ≡ k))
        → ((if b then some i' else o) ≡ some k) ⊎ (id ≡ k)
    behind true i' o later e g = inl e
    behind false i' o later e g = g e

or_else-some :
    {A : Type 0} (a b : Option A) (x : A) → or_else a b ≡ some x → (a ≡ some x) ⊎ (b ≡ some x)
unfolding or_else
or_else-some none b x h = inr h
or_else-some (some y) b x h = inl h

unfoldable pub id_of : ℕ → Option Service → ℕ
id_of other none = other
id_of other (some s) = s.type_id

emplaced_id :
    (k : ℕ) (s : Service) (q : ℕ) (t : Service)
    → emplaced k s q ≡ some t
    → s.type_id ≡ k
    → t.type_id ≡ q
unfolding emplaced id_of
emplaced_id k s q t h own = elim (Bool-cases (q == k)) [
  | inl e ↦
      sym (ap (id_of 0) (sym (ap (λ (b : Bool). if b then some s else none) e) ∙ h))
      ∙ (own ∙ sym (the_key e))
  | inr e ↦ absurd (
      omega (
        arith,
        ap (id_of (suc t.type_id)) (sym (ap (λ (b : Bool). if b then some s else none) e) ∙ h),
      ))
]
  where
    the_key : (q == k) ≡ true → q ≡ k
    the_key e = ground (arith, e)

pub there : (t : Service) (o : Option Service) → or_else (some t) o ≡ some t
unfolding or_else
there t o = refl

pub own : (k : ℕ) (s : Service) → or_else none (emplaced k s k) ≡ some s
unfolding or_else emplaced
own k s =
    (let same : (k == k) ≡ true = ground arith in
      ap (λ (b : Bool). if b then some s else none) same)

pub Known-Added :
    (s : Service) (f f' : ServiceFactory) → 1 ≤ s.type_id → Known f → Added s f f' → Known f'
Known-Added s f f' l k (old t h e) = subst Known (sym e) k
Known-Added s f f' l k (added h e n) =
    let sorted : Sorted 0 f.service_map = Sorted-weaken 1 0 f.service_map (omega arith) k.sorted in
    let after = find_type-Added s f f' sorted (added h e n) in
    record {
      sorted = Sorted-Added 1 s f f' l k.sorted (added h e n);
      ids = λ q t g. elim (or_else-some _ _ t (sym (after q) ∙ g)) [
        | inl before ↦ k.ids q t before
        | inr new ↦ emplaced_id s.type_id s q t new refl
      ];
      names = λ name id g.
          elim (find_name-emplace_name name s.name s.type_id id f.name_map
            (sym (ap (find_name name) n) ∙ g)) [
              | inl before ↦
                  (let (t, o) = k.names name id before in
                    (
                      t,
                      after id
                          ∙ ap (λ x. or_else x (emplaced s.type_id s id)) o
                          ∙ there t (emplaced s.type_id s id),
                    ))
              | inr new ↦ (
                s,
                sym (ap (λ x. find_type x f'.service_map) new)
                    ∙ (after s.type_id
                        ∙ (ap (λ x. or_else x (emplaced s.type_id s s.type_id)) h
                            ∙ own s.type_id s)),
              )
            ];
    }

pub Known-run_requests :
    (rs : List Request) (f : ServiceFactory) → Valid rs → Known f → Known (run_requests rs f)
unfolding run_requests
Known-run_requests [] f valid_end k = k
Known-run_requests (r ∷ rs) f (valid_more l v) k =
    Known-run_requests rs (run_request r f) v
      (Known-Added (requested r) f (run_request r f) l k (run_request-Added r f))
