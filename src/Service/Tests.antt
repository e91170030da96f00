-- ===== src/Service/Tests.antt =====
-- The theorems on network/service at concrete services.
use mathlib.Core.List.{Permᴰ}
use network_core.Common.{ℕ, ◌≡◌, refl, Bool, true, false, Option, none, some, List, [], ◌∷◌, arith}
use network_core.Service.Helper.{Service, init, start, reload}
use network_core.Service.Factory.{
  ServiceFactory, new_factory, same_name, get_service_by_name, get_service_by_type,
}
use network_core.Service.Factory.Registered.{
  Request, plain, derived, inter, run_requests, first_requested, Valid, valid_end, valid_more,
  Known, requested, get_service_by_type-run_requests,
}
use network_core.Service.Factory.Names.{has_type, first_named, get_service_by_name-run_requests}
use network_core.Service.Manager.{
  ServiceManager, init_service, start_service, reload_service, register_names,
}
use network_core.Service.Manager.Starting.{Called, all_of-services}
use network_core.Service.Manager.Ordering.{register_names-Permᴰ}

abbrev service : ℕ → List ℕ → Option Bool → Service
service type_id name result = record {
  type_id = type_id;
  name = name;
  val = 100;
  init_result = result;
  start_result = result;
  reload_result = none;
  has_stop = true;
  has_reset = false;
  has_set_world = true;
}

abbrev log : Service
log = service 2 (108 ∷ []) (some true)

abbrev net : Service
net = service 1 (110 ∷ []) (some false)

abbrev requests : List Request
requests = plain log ∷ (derived 7 net ∷ (inter (service 2 (120 ∷ []) none) ∷ []))

abbrev filled : ServiceFactory
filled = run_requests requests new_factory

get_service_by_type-run_requests_example : get_service_by_type 2 filled ≡ some log
unfolding first_requested requested
get_service_by_type-run_requests_example = get_service_by_type-run_requests 2 requests

requests-Valid : Valid requests
unfolding requested
requests-Valid =
    valid_more (omega arith) (valid_more (omega arith) (valid_more (omega arith) valid_end))

get_service_by_name-run_requests_example :
    Known filled
    × ((name : List ℕ) → get_service_by_name name filled ≡ first_named name [] requests)
get_service_by_name-run_requests_example = get_service_by_name-run_requests requests requests-Valid

-- the third request has a type that is there, so its name leads nowhere
named_log_run : first_named (108 ∷ []) [] requests ≡ some log
unfolding first_named has_type same_name requested
named_log_run = refl

repeated_type_run : first_named (120 ∷ []) [] requests ≡ none
unfolding first_named has_type same_name requested
repeated_type_run = refl

-- two services, the first of which does not start
abbrev manager : ServiceManager
manager = record { service_map = (1, net) ∷ ((2, log) ∷ []) }

all_of-services_example :
    Called init manager.service_map (init_service manager)
    × (Called start manager.service_map (start_service manager)
        × Called reload manager.service_map (reload_service manager))
all_of-services_example = all_of-services manager

abbrev new_manager : ServiceManager
new_manager = record { service_map = [] }

abbrev one_way : List (List ℕ)
one_way = (108 ∷ []) ∷ ((110 ∷ []) ∷ [])

abbrev other_way : List (List ℕ)
other_way = (110 ∷ []) ∷ ((108 ∷ []) ∷ [])

register_names-Permᴰ_example :
    register_names filled one_way new_manager ≡ register_names filled other_way new_manager
register_names-Permᴰ_example =
    register_names-Permᴰ filled (get_service_by_name-run_requests requests requests-Valid).0
      (Permᴰ.swap refl refl) new_manager
