-- ===== src/Rpc/Router/Registry.antt =====
-- The table of router_impl.hpp: the handler that was registered first stays.
use network_core.Common.{ℕ, ◌≡◌, ◌&&◌, some, ◌==◌, if◌then◌else◌, Bool-cases, inl, inr, arith}
use network_core.Rpc.Router.{Invoker, Router, find_invoker, register_invoker, is_none}

-- `register` gives true exactly when the name is free. After it, a name leads to the new handler
-- when it is the name that was free, and otherwise to what it led to before.
pub register_invoker-find :
    {H : Type 0} (name other : ℕ) (i : Invoker H) (r : Router H)
    → let (fresh, r') = register_invoker name i r in
      (fresh ≡ is_none (find_invoker name r.invokers))
      × (find_invoker other r'.invokers
          ≡ (if fresh && (name == other) then some i else find_invoker other r.invokers))
unfolding register_invoker find_invoker
register_invoker-find name other i r = elim (Bool-cases (is_none (find_invoker name r.invokers))) [
  | inl h ↦ ground arith
  | inr h ↦ ground arith
]
