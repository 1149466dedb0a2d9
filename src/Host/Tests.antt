-- ===== src/Host/Tests.antt =====
-- Runs of the choice of the host's address.
use kai_operator.Base.{◌≡◌, refl, true, false, none, some, [], ◌∷◌, ◌==◌}
use kai_operator.Host.{Host}
use kai_operator.Client.{ok}
use kai_operator.Host.Address.{
  get_colima_host_ip, lines_ip, get_default_host_ip, split_from, trim, line_ip,
}

abbrev host : Host
host = record {
  colima = some "{\n  \"IP\": \"10.0.0.7\",\n}";
  parses_ip = λ s. s == "10.0.0.7";
  interfaces = some (
      record { up = true; loopback = true; addresses = some (some "127.0.0.1" ∷ []) }
      ∷ record { up = true; loopback = false; addresses = some (none ∷ some "10.1.1.1" ∷ []) }
      ∷ []);
}

all : Unit {0}
unfolding get_colima_host_ip lines_ip get_default_host_ip split_from trim line_ip
all = tt

by_colima : get_colima_host_ip host ≡ ok "10.0.0.7"
unfolding all
by_colima = refl

by_interface : get_colima_host_ip (record host { colima = none }) ≡ ok "10.1.1.1"
unfolding all
by_interface = refl
