-- ===== src/Network/Dhcp/Clients.antt =====
-- Which links have a client after a pass.
use tailscale_os.Base.{
  ◌≡◌, refl, ap, ◌∙◌, Bool, false, ◌&&◌, ◌||◌, List, [], ◌∷◌, String, str_eq, eq_iff, keep,
  if◌then◌else◌, arith,
}
use tailscale_os.Network.Dhcp.{LinkStatus, wants_dhcp, has, listed, start_clients, reconcile}

-- Whether a link of this identifier is listed that wants DHCP.
abbrev pub asks : String → List LinkStatus → Bool
asks id [] = false
asks id (l ∷ ls) = str_eq id l.id && wants_dhcp l || asks id ls

has-keep :
    (id : String) (p : String → Bool) (xs : List String) → has id (keep p xs) ≡ (has id xs && p id)
unfolding has
has-keep id p [] = refl
has-keep id p (x ∷ xs) = ground (arith, has-keep id p xs, eq_iff id x)

has-start_clients :
    (id : String) (links : List LinkStatus) (clients : List String)
    → has id (start_clients links clients) ≡ (has id clients || asks id links)
unfolding has start_clients
has-start_clients id [] clients = ground arith
has-start_clients id (l ∷ ls) clients =
    has-start_clients id ls
      (if has l.id clients then clients else if wants_dhcp l then l.id ∷ clients else clients)
    ∙ ground (arith, eq_iff id l.id)

asks-listed :
    (id : String) (links : List LinkStatus) → (asks id links && listed id links) ≡ asks id links
unfolding listed
asks-listed id [] = refl
asks-listed id (l ∷ ls) = ground (arith, asks-listed id ls)

-- After a pass a link has a client exactly if it is listed and either had one before or wants DHCP: no
-- client outlives its link, and none is stopped that has its link.
pub has-reconcile :
    (id : String) (links : List LinkStatus) (clients : List String)
    → has id (reconcile links clients) ≡ (has id clients && listed id links || asks id links)
unfolding reconcile
has-reconcile id links clients =
    has-keep id (λ j. listed j links) (start_clients links clients)
    ∙ ap (λ b. b && listed id links) (has-start_clients id links clients)
    ∙ ground (arith, asks-listed id links)
