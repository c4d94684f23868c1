-- ===== src/Cli/Tests.antt =====
-- A list of links, of which one is not marshalled.
use tailscale_os.Base.{◌≡◌, refl, Option, none, some, [], ◌∷◌, String, str_eq, if◌then◌else◌}
use tailscale_os.Cli.{Definition, Server, replies, fails, get_resources}
use tailscale_os.Cli.Printed.{read_back, documents, read-get_resources}

abbrev links : Definition
links = record {
  id = "linkstatuses.net.tsos.dev";
  aliases =
      "linkstatuses" ∷ "linkstatuses.net" ∷ "linkstatuses.net.tsos" ∷ "link" ∷ "links"
      ∷ "linkstatus" ∷ "ls" ∷ [];
  resource_type = "LinkStatuses.net.tsos.dev";
  default_namespace = "network";
}

abbrev routes : Definition
routes = record {
  id = "routespecs.net.tsos.dev";
  aliases = "routespecs" ∷ "routespecs.net" ∷ "routespecs.net.tsos" ∷ "routespec" ∷ "rs" ∷ [];
  resource_type = "RouteSpecs.net.tsos.dev";
  default_namespace = "network";
}

abbrev server : Server String
server = record {
  dial_err = none;
  definitions = replies (routes ∷ links ∷ []);
  list = λ namespace t.
      if str_eq namespace "network" then replies ("lo" ∷ "broken" ∷ "eth0" ∷ []) else replies [];
  get = λ namespace t id. fails "not found";
}

abbrev marshal : String → Option String
marshal r = if str_eq r "broken" then none else some r

read-get_resources_example :
    let r = get_resources marshal str_eq server "" "links" "" in
    (read_back r.0 ≡ documents marshal ("lo" ∷ "broken" ∷ "eth0" ∷ [])) × (r.1 ≡ none)
read-get_resources_example =
    read-get_resources marshal str_eq server "" "links" (routes ∷ []) links []
      ("lo" ∷ "broken" ∷ "eth0" ∷ []) refl refl (refl, tt) refl tt refl
