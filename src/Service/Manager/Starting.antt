-- ===== src/Service/Manager/Starting.antt =====
-- What the manager calls, and in which order.
use network_core.Common.{
  ℕ, ◌≡◌, refl, sym, ap, subst, ◌∙◌, Bool, true, false, inl, inr, List, [], ◌∷◌, ◌++◌, append_assoc,
  if◌then◌else◌, Bool-cases,
}
use network_core.Service.Helper.{Service, Action, init, start, reload}
use network_core.Service.Manager.{
  ServiceManager, all_of, init_service, start_service, reload_service,
}

module _ (call : Service → List Action × Bool) where
  -- the calls on all services of a map
  unfoldable pub calls_of : List (ℕ × Service) → List Action
  calls_of [] = []
  calls_of ((type_id, s) ∷ m) = (call s).0 ++ calls_of m

  -- every service gives true
  pub data AllTrue : List (ℕ × Service) → Type 0 where
    all_end : AllTrue []
    all_more :
        {k : ℕ} {s : Service} {m : List (ℕ × Service)}
        → (call s).1 ≡ true
        → AllTrue m
        → AllTrue ((k, s) ∷ m)

  -- all services were called and gave true, or they were called up to the first that did not
  pub data Called (m : List (ℕ × Service)) (r : List Action × Bool) : Type 0 where
    called_all : AllTrue m → r ≡ (calls_of m, true) → Called m r
    called_until :
        (before : List (ℕ × Service)) (k : ℕ) (s : Service) (behind : List (ℕ × Service))
        → m ≡ before ++ ((k, s) ∷ behind)
        → AllTrue before
        → (call s).1 ≡ false
        → r ≡ (calls_of before ++ (call s).0, false)
        → Called m r

  -- one more service in front
  called_cons :
      (k : ℕ) (s : Service) (m : List (ℕ × Service)) (r : List Action × Bool)
      → (call s).1 ≡ true
      → Called m r
      → Called ((k, s) ∷ m) ((call s).0 ++ r.0, r.1)
  unfolding calls_of
  called_cons k s m r h (called_all a e) =
      called_all (all_more h a) (ap (λ (x : List Action × Bool). ((call s).0 ++ x.0, x.1)) e)
  called_cons k s m r h (called_until before l t behind e a f g) =
      called_until ((k, s) ∷ before) l t behind (ap (◌∷◌ (k, s)) e) (all_more h a) f (
        ap (λ (x : List Action × Bool). ((call s).0 ++ x.0, x.1)) g
        ∙ ap (λ x. (x, false)) (sym (append_assoc (call s).0 (calls_of before) (call t).0)))

  all_of-Called : (m : List (ℕ × Service)) → Called m (all_of call m)
  unfolding all_of calls_of
  all_of-Called [] = called_all all_end refl
  all_of-Called ((k, s) ∷ m) =
      let rest = all_of call m in
      let choose : Bool → List Action × Bool =
        λ b. if b then ((call s).0 ++ rest.0, rest.1) else ((call s).0, false) in
      elim (Bool-cases (call s).1) [
        | inl ok ↦
            subst (Called ((k, s) ∷ m)) (sym (ap choose ok))
              (called_cons k s m rest ok (all_of-Called m))
        | inr fails ↦ called_until [] k s m refl all_end fails (ap choose fails)
      ]

-- To initialise, start or reload, the manager calls its services in the order of its map: all of
-- them, with the result true, if each gives true, and else up to the first one that gives false and
-- none behind it, with the result false.
pub all_of-services :
    (m : ServiceManager)
    → Called init m.service_map (init_service m)
      × (Called start m.service_map (start_service m)
          × Called reload m.service_map (reload_service m))
unfolding init_service start_service reload_service
all_of-services m = (
  all_of-Called init m.service_map,
  (all_of-Called start m.service_map, all_of-Called reload m.service_map),
)
