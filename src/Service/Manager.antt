-- ===== src/Service/Manager.antt =====
-- `service_manager` of network/service/service_manager.hpp: the services of one program, which are
-- called in the order of their type ids.
pub mod Starting
pub mod Ordering
use network_core.Common.{
  ℕ, Bool, true, false, not, Option, none, some, List, [], ◌∷◌, ◌++◌, if◌then◌else◌,
}
use network_core.Service.TypeMap.{find_type, emplace}
use network_core.Service.Helper.{Service, Action, init, start, reload, stop, reset, set_world}
use network_core.Service.Factory.{
  ServiceFactory, get_service_by_name, get_derived_typeid_list, vals_of, first_val, val_or,
  push_val, reg_inter_service,
}

pub record ServiceManager : Type 0 where
  pub service_map : List (ℕ × Service)

-- `std::all_of` over the map: the calls that were made, and whether all gave true
unfoldable pub all_of : (Service → List Action × Bool) → List (ℕ × Service) → List Action × Bool
all_of call [] = ([], true)
all_of call ((type_id, s) ∷ m) =
    let (actions, ok) = call s in
    let (others, all_ok) = all_of call m in
    if ok then (actions ++ others, all_ok) else (actions, false)

unfoldable pub for_each : (Service → List Action) → List (ℕ × Service) → List Action
for_each call [] = []
for_each call ((type_id, s) ∷ m) = call s ++ for_each call m

unfoldable pub service_set_world : ServiceManager → List Action
unfolding for_each set_world
service_set_world m = for_each set_world m.service_map

unfoldable pub init_service : ServiceManager → List Action × Bool
unfolding all_of init
init_service m = all_of init m.service_map

unfoldable pub start_service : ServiceManager → List Action × Bool
unfolding all_of start
start_service m = all_of start m.service_map

unfoldable pub stop_service : ServiceManager → List Action
unfolding for_each stop
stop_service m = for_each stop m.service_map

unfoldable pub reset_service : ServiceManager → List Action
unfolding for_each reset
reset_service m = for_each reset m.service_map

unfoldable pub reload_service : ServiceManager → List Action × Bool
unfolding all_of reload
reload_service m = all_of reload m.service_map

-- the value of a type, or that of the first registered type that is derived from it
unfoldable pub manager_get_service : ServiceFactory → ℕ → ServiceManager → Option ℕ
unfolding find_type vals_of first_val val_or get_derived_typeid_list
manager_get_service f type_id m =
    val_or (find_type type_id m.service_map)
      (first_val (vals_of (get_derived_typeid_list type_id f) m.service_map))

unfoldable pub manager_get_all_service : ServiceFactory → ℕ → ServiceManager → List ℕ
unfolding find_type vals_of push_val get_derived_typeid_list
manager_get_all_service f type_id m =
    push_val (find_type type_id m.service_map)
      (vals_of (get_derived_typeid_list type_id f) m.service_map)

unfoldable pub is_some : {A : Type 0} → Option A → Bool
is_some none = false
is_some (some a) = true

unfoldable pub found_in : Option Service → List (ℕ × Service) → Bool
unfolding is_some find_type
found_in none m = false
found_in (some s) m = is_some (find_type s.type_id m)

unfoldable pub find_service : ServiceFactory → List ℕ → ServiceManager → Bool
unfolding get_service_by_name found_in
find_service f name m = found_in (get_service_by_name name f) m.service_map

unfoldable pub add_found : Option Service → ServiceManager → ServiceManager
unfolding emplace
add_found none m = m
add_found (some s) m = record { service_map = emplace s.type_id s m.service_map }

unfoldable pub register_by_name : ServiceFactory → List ℕ → ServiceManager → ServiceManager
unfolding get_service_by_name add_found
register_by_name f name m = add_found (get_service_by_name name f) m

unfoldable pub register_names : ServiceFactory → List (List ℕ) → ServiceManager → ServiceManager
unfolding register_by_name
register_names f [] m = m
register_names f (name ∷ names) m = register_names f names (register_by_name f name m)

unfoldable pub register_all_service : ServiceFactory → ServiceManager → ServiceManager
register_all_service f m = record { service_map = f.service_map }

-- `reg_impl`
unfoldable pub register_type : ServiceFactory → ℕ → ServiceManager → ServiceManager
unfolding find_type add_found
register_type f type_id m = add_found (find_type type_id f.service_map) m

unfoldable pub manager_reg_inter_service :
    Service → ServiceFactory → ServiceManager → ServiceFactory × ServiceManager
unfolding reg_inter_service add_found
manager_reg_inter_service s f m =
    let (found, f') = reg_inter_service s f in (f', add_found (some found) m)
