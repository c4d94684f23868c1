-- ===== src/Controllers/Tests.antt =====
-- The controller of the services over a stream of four slots, with another service and a payload that does
-- not decode before the event of udevd.
use tailscale_os.Base.{
  ℕ, true, false, Option, none, some, [], ◌∷◌, List, String, replicate, str_eq, if◌then◌else◌,
}
use tailscale_os.History.{ServiceStateEvent}
use tailscale_os.Stream.{Event, Events, publish}

abbrev told : String → ServiceStateEvent
told id = record {
  service = id;
  action = 3;
  message = "Started";
  health = record { unknown = true; healthy = false };
}

abbrev decode : String → Option ServiceStateEvent
decode p = if str_eq p "junk" then none else some (told p)

abbrev payload : String → Event ℕ
payload p = record { type_url = ""; id = 0; payload = p; actor_id = "" }

abbrev empty_stream : Events ℕ
empty_stream = record { stream = replicate 4 (payload ""); write_pos = 0; cap = 4; gap = 1 }

abbrev log : List (Event ℕ)
log = payload "apid" ∷ payload "junk" ∷ payload "udevd" ∷ []

abbrev stream : Events ℕ
stream =
    publish (payload "udevd") (publish (payload "junk") (publish (payload "apid") empty_stream))
