-- ===== src/Service/Factory.antt =====
-- `service_factory` of network/service/service_meta.hpp: the services that the program has, by type,
-- by name and by base type. A type id is a positive number.
pub mod Registered
pub mod Names
use network_core.Common.{
  ℕ, zero, suc, Bool, true, false, ◌&&◌, Option, none, some, List, [], ◌∷◌, ◌++◌, ◌==◌,
  if◌then◌else◌, map,
}
use network_core.Service.TypeMap.{find_type, emplace}
use network_core.Service.Helper.{Service}

pub record ServiceFactory : Type 0 where
  pub service_map : List (ℕ × Service)
  pub name_map : List (List ℕ × ℕ)
  pub derived_service_map : List (ℕ × List ℕ)

unfoldable pub new_factory : ServiceFactory
new_factory = record { service_map = []; name_map = []; derived_service_map = [] }

unfoldable pub same_name : List ℕ → List ℕ → Bool
same_name [] [] = true
same_name [] (d ∷ s) = false
same_name (c ∷ r) [] = false
same_name (c ∷ r) (d ∷ s) = (c == d) && same_name r s

unfoldable pub find_name : List ℕ → List (List ℕ × ℕ) → Option ℕ
unfolding same_name
find_name name [] = none
find_name name ((other, type_id) ∷ m) =
    let rest = find_name name m in if same_name name other then some type_id else rest

-- `name_map_.emplace`: a name that is there keeps its type
unfoldable pub emplace_name : List ℕ → ℕ → List (List ℕ × ℕ) → List (List ℕ × ℕ)
unfolding same_name
emplace_name name type_id [] = (name, type_id) ∷ []
emplace_name name type_id ((other, id) ∷ m) =
    let rest = emplace_name name type_id m in
    if same_name name other then (other, id) ∷ m else (other, id) ∷ rest

-- `derived_service_map_[base].push_back(type)`
unfoldable pub push_derived : ℕ → ℕ → List (ℕ × List ℕ) → List (ℕ × List ℕ)
push_derived base type_id [] = (base, type_id ∷ []) ∷ []
push_derived base type_id ((b, types) ∷ m) =
    let rest = push_derived base type_id m in
    if base == b then (b, types ++ (type_id ∷ [])) ∷ m else (b, types) ∷ rest

-- what both ways to register do for a type that is new
unfoldable pub add_service : Service → ServiceFactory → ServiceFactory
unfolding emplace emplace_name
add_service s f = record f {
  service_map = emplace s.type_id s f.service_map;
  name_map = emplace_name s.name s.type_id f.name_map;
}

unfoldable pub when_new : Option Service → ServiceFactory → ServiceFactory → ServiceFactory
when_new none added f = added
when_new (some s) added f = f

unfoldable pub register_service : Service → ServiceFactory → ServiceFactory
unfolding find_type add_service when_new
register_service s f = when_new (find_type s.type_id f.service_map) (add_service s f) f

-- with a base type
unfoldable pub register_derived_service : ℕ → Service → ServiceFactory → ServiceFactory
unfolding find_type add_service when_new push_derived
register_derived_service base s f =
    when_new (find_type s.type_id f.service_map)
      (record (add_service s f) {
        derived_service_map = push_derived base s.type_id f.derived_service_map;
      })
      f

unfoldable pub if_found : Option Service → Service → Service
if_found none s = s
if_found (some old) s = old

-- the registered service of the type, which is the new one if there was none
unfoldable pub reg_inter_service : Service → ServiceFactory → Service × ServiceFactory
unfolding if_found register_service find_type
reg_inter_service s f = (if_found (find_type s.type_id f.service_map) s, register_service s f)

unfoldable pub get_service_by_type : ℕ → ServiceFactory → Option Service
unfolding find_type
get_service_by_type type_id f = find_type type_id f.service_map

unfoldable pub id_or_zero : Option ℕ → ℕ
id_or_zero none = 0
id_or_zero (some type_id) = type_id

unfoldable pub get_service_typeid : List ℕ → ServiceFactory → ℕ
unfolding find_name id_or_zero
get_service_typeid name f = id_or_zero (find_name name f.name_map)

unfoldable pub get_service_by_name : List ℕ → ServiceFactory → Option Service
unfolding get_service_by_type get_service_typeid
get_service_by_name name f = get_service_by_type (get_service_typeid name f) f

unfoldable pub types_of : Option (List ℕ) → List ℕ
types_of none = []
types_of (some types) = types

unfoldable pub get_derived_typeid_list : ℕ → ServiceFactory → List ℕ
unfolding find_type types_of
get_derived_typeid_list base f = types_of (find_type base f.derived_service_map)

unfoldable pub push_val : Option Service → List ℕ → List ℕ
push_val none vals = vals
push_val (some s) vals = s.val ∷ vals

unfoldable pub vals_of : List ℕ → List (ℕ × Service) → List ℕ
unfolding find_type push_val
vals_of [] m = []
vals_of (type_id ∷ types) m = push_val (find_type type_id m) (vals_of types m)

unfoldable pub get_derived_services : ℕ → ServiceFactory → List ℕ
unfolding vals_of get_derived_typeid_list
get_derived_services base f = vals_of (get_derived_typeid_list base f) f.service_map

unfoldable pub first_val : List ℕ → Option ℕ
first_val [] = none
first_val (v ∷ vals) = some v

unfoldable pub val_or : Option Service → Option ℕ → Option ℕ
val_or none other = other
val_or (some s) other = some s.val

-- the value of a type, or that of the first type derived from it
unfoldable pub get_service : ℕ → ServiceFactory → Option ℕ
unfolding get_derived_services first_val val_or find_type
get_service type_id f =
    val_or (find_type type_id f.service_map) (first_val (get_derived_services type_id f))

unfoldable pub get_all_service : ℕ → ServiceFactory → List ℕ
unfolding get_derived_services push_val find_type
get_all_service type_id f =
    push_val (find_type type_id f.service_map) (get_derived_services type_id f)
