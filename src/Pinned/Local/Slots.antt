-- ===== src/Pinned/Local/Slots.antt =====
-- The route over the adapter that local_bleak.py selects, and the slot that it takes.
use ha_aiper_ble.Prelude.{
  String, ◌≡◌, refl, sym, ap, ◌∙◌, ◌≢◌, true, Option, none, some, List, [], ◌∷◌, if_elim,
}
use ha_aiper_ble.Prelude.Text.{Text}
use ha_aiper_ble.Outcome.{result_elim, Exception, Result, ok, err, protocol}
use ha_aiper_ble.Prelude.Optional.{option_elim}
use ha_aiper_ble.Target.{Target}
use ha_aiper_ble.Pinned.Routes.{KnownRoute, Manager, Backend, routes_at, single_route}
use ha_aiper_ble.Pinned.Local.{
  local_refusal, Selected, is_local_backend, take_backend, select_local,
}

-- the error that a result holds, if it is one
abbrev pub Fails {ℓ} : {A : Type ℓ} → Result A → Type 0
Fails (ok a) = ⊥
Fails (err e) = Unit

-- What a selection comes to. A selected backend is that of the only route over the adapter, which
-- passed the checks, and its slot is kept. A selection that fails has no slot left: no backend was
-- asked for or none was made, or the slot of its device was given back.
pub record IsFair (backend_of : KnownRoute → Option Backend) (t : Target) (path source : Text)
    (m : Manager) (s : Selected) : Type 0 where
  pub only :
      (b : Backend)
      → s.backend ≡ ok b
      → (r : KnownRoute) × (routes_at source m ≡ r ∷ [])
        × (local_refusal t path source m r ≡ none)
        × (backend_of r ≡ some b)
        × (is_local_backend r b ≡ true)
        × (s.given_back ≡ [])
  pub free :
      Fails s.backend
      → (r : KnownRoute) → (b : Backend) → routes_at source m ≡ r ∷ []
      → local_refusal t path source m r ≡ none
      → backend_of r ≡ some b
      → s.given_back ≡ r.device.identity ∷ []

single_route-routes :
    (code : String) (rs : List KnownRoute) (r : KnownRoute)
    → single_route code rs ≡ ok r
    → rs ≡ r ∷ []
unfolding single_route
single_route-routes code [] r h = cc
single_route-routes code (a ∷ []) r h = cc
single_route-routes code (a ∷ b ∷ rs) r h = cc

single_route-fails :
    (code : String) (rs : List KnownRoute) (r : KnownRoute) (e : Exception)
    → single_route code rs ≡ err e
    → rs ≢ r ∷ []
unfolding single_route
single_route-fails code [] r e h k = cc
single_route-fails code (a ∷ []) r e h k = cc
single_route-fails code (a ∷ b ∷ rs) r e h k = cc

ok-injective {ℓ} : {A : Type ℓ} {a b : A} → ok a ≡ ok b → a ≡ b
ok-injective h = cc

none-ne-some {ℓ} : {A : Type ℓ} {o : Option A} {a : A} → o ≡ none → o ≢ some a
none-ne-some h k = cc

module _ (backend_of : KnownRoute → Option Backend) (t : Target) (path source : Text)
    (m : Manager) where
  abbrev Fair : Selected → Type 0
  Fair = IsFair backend_of t path source m

  -- a selection that has failed before any backend
  before_backend :
      (e : Exception)
      → ((r : KnownRoute) → routes_at source m ≡ r ∷ [] → local_refusal t path source m r ≢ none)
      → Fair (record { backend = err e; given_back = [] })
  before_backend e never = record {
    only = λ b h. cc;
    free = λ bad r b one passed made. absurd (never r one passed);
  }

  same_route : (r s : KnownRoute) → r ∷ [] ≡ s ∷ [] → r ≡ s
  same_route r s h = cc

  take_backend-IsFair :
      (r : KnownRoute)
      → routes_at source m ≡ r ∷ []
      → local_refusal t path source m r ≡ none
      → Fair (take_backend backend_of r)
  unfolding take_backend
  take_backend-IsFair r one passed =
      option_elim Fair (backend_of r) _ _
        (λ b made.
          if_elim Fair (is_local_backend r b)
            (λ its. record {
              only = λ c same. (
                r,
                one,
                passed,
                made ∙ ap some (ok-injective same),
                ap (is_local_backend r) (sym (ok-injective same)) ∙ its,
                refl,
              );
              free = λ bad. elim bad [ ];
            })
            (λ other. record {
              only = λ c h. cc;
              free = λ bad s c one_s passed_s made_s.
                  ap (λ q. q.device.identity ∷ []) (same_route r s (sym one ∙ one_s));
            }))
        (λ lacks. record {
          only = λ c h. cc;
          free = λ bad s c one_s passed_s made_s.
              absurd
                (none-ne-some lacks (ap backend_of (same_route r s (sym one ∙ one_s)) ∙ made_s));
        })

  -- Whatever routes there are and whatever backend is made, the selection is fair: what it selects is
  -- the backend of the only route over the adapter, which passed the checks, and where it fails after
  -- a backend was made, which took a slot, it has given that slot back, and no other.
  pub select_local-IsFair : Fair (select_local backend_of t path source m)
  unfolding select_local
  select_local-IsFair =
      result_elim Fair (single_route "local_bleak_route_unavailable" (routes_at source m)) _ _
        (λ e none_single.
          before_backend e λ r one. absurd (single_route-fails _ _ r e none_single one))
        (λ r single.
          let one = single_route-routes _ _ r single in
          option_elim Fair (local_refusal t path source m r) _ _
            (λ code failed. before_backend (protocol code) λ s one_s passed.
              none-ne-some
                (ap (local_refusal t path source m) (same_route r s (sym one ∙ one_s)) ∙ passed)
                failed)
            (λ passed. take_backend-IsFair r one passed))
