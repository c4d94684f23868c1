-- ===== src/Init/Wiring.antt =====
-- internal/app/machined/controller.go: the controllers that machined registers, with their inputs and outputs
-- of pkg/controllers; and pkg/runtime/v1alpha1/v1alpha1_state.go: the types of resources that it registers.
-- The calls of the COSI runtime are a parameter, by their errors.
use tailscale_os.Base.{Option, none, some, List, [], ◌∷◌, String}

-- The types of resources, by their names in the code.
pub data ResourceType : Type 0 where
  address_spec link_status route_spec resolver_spec devices_status service : ResourceType

abbrev pub type_name : ResourceType → String
type_name address_spec = "Addresses.net.tsos.dev"
type_name link_status = "LinkStatuses.net.tsos.dev"
type_name route_spec = "RouteSpecs.net.tsos.dev"
type_name resolver_spec = "ResolverSpecs.net.tsos.dev"
type_name devices_status = "DevicesStatuses.runtime.tsos.dev"
type_name service = "Services.v1alpha1.tsos.dev"

pub data InputKind : Type 0 where
  strong weak : InputKind

pub data OutputKind : Type 0 where
  exclusive shared : OutputKind

-- `controller.Input`, with "" for no identifier, and `controller.Output`.
pub record Input : Type 0 where
  pub namespace : String
  pub input_type : ResourceType
  pub id : String
  pub kind : InputKind

pub record Output : Type 0 where
  pub output_type : ResourceType
  pub kind : OutputKind

pub record Controller : Type 0 where
  pub name : String
  pub inputs : List Input
  pub outputs : List Output

abbrev input : String → ResourceType → String → InputKind → Input
input ns t id k = record { namespace = ns; input_type = t; id = id; kind = k }

abbrev output : ResourceType → OutputKind → Output
output t k = record { output_type = t; kind = k }

abbrev pub address_spec_controller : Controller
address_spec_controller = record {
  name = "network.AddressSpecController";
  inputs = input "network" address_spec "" strong ∷ [];
  outputs = [];
}

abbrev pub link_status_controller : Controller
link_status_controller = record {
  name = "network.LinkStatusController";
  inputs = [];
  outputs = output link_status exclusive ∷ [];
}

abbrev pub dhcp4_controller : Controller
dhcp4_controller = record {
  name = "network.DHCP4Controller";
  inputs = input "network" link_status "" weak ∷ [];
  outputs =
      output address_spec shared ∷ output route_spec shared ∷ output resolver_spec shared ∷ [];
}

abbrev pub route_spec_controller : Controller
route_spec_controller = record {
  name = "network.RouteSpecController";
  inputs = input "network" route_spec "" strong ∷ [];
  outputs = [];
}

abbrev pub apid_controller : Controller
apid_controller = record {
  name = "runtime.ApidServiceController";
  inputs = input "runtime" devices_status "" strong ∷ [];
  outputs = [];
}

abbrev pub device_status_controller : Controller
device_status_controller = record {
  name = "runtime.DeviceStatusController";
  inputs = input "runtime" service "udevd" weak ∷ [];
  outputs = output devices_status exclusive ∷ [];
}

abbrev pub udevd_controller : Controller
udevd_controller = record { name = "runtime.UdevServiceController"; inputs = []; outputs = [] }

abbrev pub service_controller : Controller
service_controller = record {
  name = "v1alpha1.ServiceController";
  inputs = [];
  outputs = output service exclusive ∷ [];
}

-- The list in `Run`.
abbrev pub controllers : List Controller
controllers =
    address_spec_controller ∷ link_status_controller ∷ dhcp4_controller ∷ route_spec_controller
    ∷ apid_controller ∷ device_status_controller ∷ udevd_controller ∷ service_controller ∷ []

-- The loop of `Run` and the call after it: the controllers that are registered, and the error. `main` runs
-- it in a goroutine and drops the error.
unfoldable pub register_each :
    (Controller → Option String) → Option String → List Controller → List Controller × Option String
register_each err run_err [] = ([], run_err)
register_each err run_err (c ∷ cs) =
    let rest = register_each err run_err cs in
    elim (err c) [ none ↦ (c ∷ rest.0, rest.1) | some e ↦ ([], some e) ]

-- What `NewState` registers.
pub data Registration : Type 0 where
  default_namespaces default_resources : Registration
  namespace : String → String → Registration
  resource : ResourceType → Registration

abbrev pub registrations : List Registration
registrations =
    default_namespaces
    ∷ default_resources
    ∷ namespace "runtime" "Tailscale OS v1alpha1 subsystems glue resources."
    ∷ resource address_spec
    ∷ resource link_status
    ∷ resource resolver_spec
    ∷ resource route_spec
    ∷ resource devices_status
    ∷ resource service
    ∷ []

-- `NewState`: its first error.
unfoldable pub new_state : (Registration → Option String) → List Registration → Option String
new_state err [] = none
new_state err (r ∷ rs) =
    let rest = new_state err rs in elim (err r) [ none ↦ rest | some e ↦ some e ]
