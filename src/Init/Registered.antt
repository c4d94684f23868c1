-- ===== src/Init/Registered.antt =====
-- controller.go and v1alpha1_state.go: the types of resources fit the controllers that machined registers.
use tailscale_os.Base.{
  ◌≡◌, refl, Bool, true, false, ◌&&◌, ◌||◌, Option, none, List, [], ◌∷◌, String, str_eq,
  if◌then◌else◌, All, arith,
}
use tailscale_os.Init.Wiring.{
  ResourceType, address_spec, link_status, route_spec, resolver_spec, devices_status, service,
  type_name, Input, Output, OutputKind, exclusive, shared, Controller, controllers, register_each,
  Registration, resource, registrations, new_state,
}

abbrev same_type : ResourceType → ResourceType → Bool
same_type t u = str_eq (type_name t) (type_name u)

abbrev is_exclusive : OutputKind → Bool
is_exclusive exclusive = true
is_exclusive shared = false

abbrev any {ℓ} : {A : Type ℓ} → (A → Bool) → List A → Bool
any p [] = false
any p (x ∷ xs) = p x || any p xs

abbrev pub writes : ResourceType → Controller → Bool
writes t c = any (λ (o : Output). same_type t o.output_type) c.outputs

abbrev pub claims : ResourceType → Controller → Bool
claims t c = any (λ (o : Output). same_type t o.output_type && is_exclusive o.kind) c.outputs

abbrev pub reads : ResourceType → Controller → Bool
reads t c = any (λ (i : Input). same_type t i.input_type) c.inputs

abbrev pub others : Controller → List Controller → List Controller
others c [] = []
others c (d ∷ ds) = let rest = others c ds in if str_eq c.name d.name then rest else d ∷ rest

abbrev twice : {A : Type 0} → (A → A → Bool) → List A → Bool
twice same [] = false
twice same (x ∷ xs) = any (same x) xs || twice same xs

abbrev same_input : Input → Input → Bool
same_input i j =
    str_eq i.namespace j.namespace && same_type i.input_type j.input_type && str_eq i.id j.id

abbrev namesakes : Controller → List Controller → List Controller
namesakes c [] = []
namesakes c (d ∷ ds) = let rest = namesakes c ds in if str_eq c.name d.name then d ∷ rest else rest

abbrev several : List Controller → Bool
several (c ∷ d ∷ cs) = true
several _ = false

-- What the COSI runtime refuses of a controller beside the others: a name that is taken, an output that
-- one of them has for itself, an output for itself that one of them has too, or the same input or output
-- twice.
abbrev pub conflicts : List Controller → Controller → Bool
conflicts cs c =
    several (namesakes c cs)
    || any
        (λ (o : Output).
          any (claims o.output_type) (others c cs)
          || is_exclusive o.kind && any (writes o.output_type) (others c cs))
        c.outputs
    || twice (λ (o p : Output). same_type o.output_type p.output_type) c.outputs
    || twice same_input c.inputs

module _ (err : Registration → Option String) where
  new_state-All : (rs : List Registration) → new_state err rs ≡ none → All (λ r. err r ≡ none) rs
  unfolding new_state
  new_state-All [] e = tt
  new_state-All (r ∷ rs) e = ground (arith, new_state-All rs)

  registered : (t : ResourceType) → All (λ r. err r ≡ none) registrations → err (resource t) ≡ none
  registered address_spec (_, (_, (_, (a, _)))) = a
  registered link_status (_, (_, (_, (_, (a, _))))) = a
  registered resolver_spec (_, (_, (_, (_, (_, (a, _)))))) = a
  registered route_spec (_, (_, (_, (_, (_, (_, (a, _))))))) = a
  registered devices_status (_, (_, (_, (_, (_, (_, (_, (a, _)))))))) = a
  registered service (_, (_, (_, (_, (_, (_, (_, (_, (a, _))))))))) = a

module _ (refuses : Controller → Option String) (run_err : Option String) where
  register_each-none :
      (p : Controller → Bool) (cs : List Controller)
      → ((c : Controller) → p c ≡ false → refuses c ≡ none)
      → any p cs ≡ false
      → register_each refuses run_err cs ≡ (cs, run_err)
  unfolding register_each
  register_each-none p [] h e = refl
  register_each-none p (c ∷ cs) h e = ground (arith, h c, e, register_each-none p cs h)

-- If `NewState` succeeds, each type of the resources of the controllers has been registered; and a runtime
-- that refuses a controller only for a name that is taken or for a conflict of its inputs or outputs
-- takes all the controllers of machined, so that `Run` gives what the runtime gives that runs them.
pub wiring_fits :
    (err : Registration → Option String) (refuses : Controller → Option String)
    (run_err : Option String) (t : ResourceType)
    → new_state err registrations ≡ none
    → ((c : Controller) → conflicts controllers c ≡ false → refuses c ≡ none)
    → (err (resource t) ≡ none)
      × (register_each refuses run_err controllers ≡ (controllers, run_err))
wiring_fits err refuses run_err t e h = (
  registered err t (new_state-All err registrations e),
  register_each-none refuses run_err (conflicts controllers) controllers h refl,
)

-- No controller reads the resolver of the leases.
unread : any (reads resolver_spec) controllers ≡ false
unread = refl
