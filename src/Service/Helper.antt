-- ===== src/Service/Helper.antt =====
-- `service_helper` of network/service/service_meta.hpp: a value of the user's type behind the
-- interface `iservice`. A member function that the type does not have is not called.
use network_core.Common.{ℕ, Bool, true, Option, none, some, List, [], ◌∷◌, if◌then◌else◌}

-- what is called on the user's value, which stands for its address
pub data Action : Type 0 where
  set_world_on : ℕ → Action
  init_on : ℕ → Action
  start_on : ℕ → Action
  stop_on : ℕ → Action
  reset_on : ℕ → Action
  reload_on : ℕ → Action

-- the helper: the type's id and name, the value, and which functions the type has, with what they
-- return
pub record Service : Type 0 where
  pub type_id : ℕ
  pub name : List ℕ
  pub val : ℕ
  pub init_result : Option Bool
  pub start_result : Option Bool
  pub reload_result : Option Bool
  pub has_stop : Bool
  pub has_reset : Bool
  pub has_set_world : Bool

-- SERVICE_FUNC_IMPL_BOOL: what is called and the result, true without the function
unfoldable pub func_impl_bool : Option Bool → Action → List Action × Bool
func_impl_bool none action = ([], true)
func_impl_bool (some result) action = (action ∷ [], result)

-- SERVICE_FUNC_IMPL
unfoldable pub func_impl : Bool → Action → List Action
func_impl has action = if has then action ∷ [] else []

unfoldable pub init : Service → List Action × Bool
unfolding func_impl_bool
init s = func_impl_bool s.init_result (init_on s.val)

unfoldable pub start : Service → List Action × Bool
unfolding func_impl_bool
start s = func_impl_bool s.start_result (start_on s.val)

unfoldable pub reload : Service → List Action × Bool
unfolding func_impl_bool
reload s = func_impl_bool s.reload_result (reload_on s.val)

unfoldable pub stop : Service → List Action
unfolding func_impl
stop s = func_impl s.has_stop (stop_on s.val)

unfoldable pub reset : Service → List Action
unfolding func_impl
reset s = func_impl s.has_reset (reset_on s.val)

unfoldable pub set_world : Service → List Action
unfolding func_impl
set_world s = func_impl s.has_set_world (set_world_on s.val)
