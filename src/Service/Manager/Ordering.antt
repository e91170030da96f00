-- ===== src/Service/Manager/Ordering.antt =====
-- The manager does not depend on the order in which its services are registered.
use mathlib.Core.List.{Permᴰ}
use mathlib.Core.Option.{some-injective}
use network_core.Common.{ℕ, ◌≡◌, refl, sym, ap, ◌∙◌, Option, none, some, List}
use network_core.Service.TypeMap.{find_type, emplace_comm}
use network_core.Service.Helper.{Service}
use network_core.Service.Factory.{
  ServiceFactory, get_service_by_name, get_service_by_type, get_service_typeid,
}
use network_core.Service.Factory.Registered.{Known}
use network_core.Service.Manager.{ServiceManager, add_found, register_by_name, register_names}

add_found_comm :
    (o o' : Option Service) (m : ServiceManager)
    → ((s s' : Service) → o ≡ some s → o' ≡ some s' → s.type_id ≡ s'.type_id → s ≡ s')
    → add_found o (add_found o' m) ≡ add_found o' (add_found o m)
unfolding add_found
add_found_comm none o' m h = refl
add_found_comm (some s) none m h = refl
add_found_comm (some s) (some s') m h =
    ap (λ x. record { service_map = x })
      (emplace_comm s.type_id s'.type_id s s' (h s s' refl refl) m.service_map)

-- services with one id are one service
same_service :
    (f : ServiceFactory) (n n' : List ℕ) (s s' : Service)
    → Known f
    → get_service_by_name n f ≡ some s
    → get_service_by_name n' f ≡ some s'
    → s.type_id ≡ s'.type_id
    → s ≡ s'
unfolding get_service_by_name get_service_by_type
same_service f n n' s s' k h h' e =
    let key = k.ids (get_service_typeid n f) s h in
    let key' = k.ids (get_service_typeid n' f) s' h' in
    some-injective s s' (sym h ∙ (ap (λ i. find_type i f.service_map) (sym key ∙ (e ∙ key')) ∙ h'))

register_by_name_comm :
    (f : ServiceFactory) (n n' : List ℕ) (m : ServiceManager)
    → Known f
    → register_by_name f n (register_by_name f n' m)
      ≡ register_by_name f n' (register_by_name f n m)
unfolding register_by_name
register_by_name_comm f n n' m k =
    add_found_comm (get_service_by_name n f) (get_service_by_name n' f) m
      (λ s s' h h' e. same_service f n n' s s' k h h' e)

-- With a factory whose services are kept under their own types, the manager that comes of a list of
-- names is the one that comes of the names in any other order, and so are the calls it makes to
-- initialise, start, stop, reset and reload them.
pub register_names-Permᴰ :
    (f : ServiceFactory)
    → Known f
    → {names names' : List (List ℕ)} → Permᴰ names names'
    → (m : ServiceManager) → register_names f names m ≡ register_names f names' m
unfolding register_names
register_names-Permᴰ f k Permᴰ.nil m = refl
register_names-Permᴰ f k (Permᴰ.cons {b = b} {l₁ = l₁} e p) m =
    ap (λ n. register_names f l₁ (register_by_name f n m)) e
    ∙ register_names-Permᴰ f k p (register_by_name f b m)
register_names-Permᴰ f k (Permᴰ.swap {a = a} {b = b} {b' = b'} {l = l} e e') m =
    ap (register_names f l) (register_by_name_comm f b a m k)
    ∙ ap (λ n. register_names f l (register_by_name f n (register_by_name f b m))) e
    ∙ ap (λ n. register_names f l (register_by_name f b' (register_by_name f n m))) e'
register_names-Permᴰ f k (Permᴰ.trans p q) m =
    register_names-Permᴰ f k p m ∙ register_names-Permᴰ f k q m
