-- ===== src/Cli/Definitions.antt =====
-- pkg/machinery/resources: the definitions of the types of resources, as `tsosctl get` finds them. The
-- filling in of a definition by the COSI runtime is a parameter: the identifier, and all aliases. The
-- sensitivity, which only that of the links names, is the same for all.
use tailscale_os.Base.{List, [], ◌∷◌, String}
use tailscale_os.Cli.{Definition}

-- `meta.ResourceDefinitionSpec`, with the name and the path of each column.
pub record DefinitionSpec : Type 0 where
  pub resource_type : String
  pub aliases : List String
  pub default_namespace : String
  pub print_columns : List (String × String)

abbrev pub address_definition : DefinitionSpec
address_definition = record {
  resource_type = "Addresses.net.tsos.dev";
  aliases = [];
  default_namespace = "network";
  print_columns = [];
}

abbrev pub link_definition : DefinitionSpec
link_definition = record {
  resource_type = "LinkStatuses.net.tsos.dev";
  aliases = "link" ∷ "links" ∷ [];
  default_namespace = "network";
  print_columns =
      ("Alias", "{.alias}")
      ∷ ("Type", "{.type}")
      ∷ ("Kind", "{.kind}")
      ∷ ("Hw Addr", "{.hardwareAddr}")
      ∷ ("Oper State", "{.operationalState}")
      ∷ ("Link State", "{.linkState}")
      ∷ [];
}

abbrev pub resolver_definition : DefinitionSpec
resolver_definition = record {
  resource_type = "ResolverSpecs.net.tsos.dev";
  aliases = [];
  default_namespace = "network";
  print_columns =
      ("Layer", "{.layer}")
      ∷ ("Resolvers", "{.dnsServers}")
      ∷ ("Search Domains", "{.searchDomains}")
      ∷ [];
}

abbrev pub route_definition : DefinitionSpec
route_definition = record {
  resource_type = "RouteSpecs.net.tsos.dev";
  aliases = [];
  default_namespace = "network";
  print_columns = [];
}

abbrev pub devices_definition : DefinitionSpec
devices_definition = record {
  resource_type = "DevicesStatuses.runtime.tsos.dev";
  aliases = [];
  default_namespace = "runtime";
  print_columns = ("Ready", "{.ready}") ∷ [];
}

abbrev pub service_definition : DefinitionSpec
service_definition = record {
  resource_type = "Services.v1alpha1.tsos.dev";
  aliases = "svc" ∷ [];
  default_namespace = "runtime";
  print_columns =
      ("Running", "{.running}") ∷ ("Healthy", "{.healthy}") ∷ ("Health Unknown", "{.unknown}") ∷ [];
}

-- A definition after it is registered.
abbrev pub filled : (String → String) → (DefinitionSpec → List String) → DefinitionSpec → Definition
filled id_of all_aliases d = record {
  id = id_of d.resource_type;
  aliases = all_aliases d;
  resource_type = d.resource_type;
  default_namespace = d.default_namespace;
}
