-- ===== src/Network/Dhcp/Domains.antt =====
-- No search domain can break out of its line of the resolver file.
use tailscale_os.Base.{◌≡◌, true, List}
use tailscale_os.Network.Dhcp.{Name, is_valid_name}

abbrev Valid : Name → Type 0
Valid n = is_valid_name n ≡ true
