-- ===== src/Host.antt =====
-- What the operator asks of the machine that it runs on: its environment, its network interfaces and
-- the output of `colima list -j`. They are parameters.
pub mod Address
pub mod Choice
mod Tests
use kai_operator.Base.{ℕ, String, Bool, Option, List}
use kai_operator.Client.{Client}

-- An interface: its flags and, if they can be read, its addresses, each with its text if it is IPv4.
pub record Interface : Type 0 where
  pub up : Bool
  pub loopback : Bool
  pub addresses : Option (List (Option String))

-- `parses_ip` tells the texts that `net.ParseIP` accepts.
pub record Host : Type 0 where
  pub colima : Option String
  pub parses_ip : String → Bool
  pub interfaces : Option (List Interface)

-- The surroundings of a controller.
pub record System (W : Type 0) : Type 0 where
  pub client : Client W
  pub getenv : List ℕ → String
  pub host : Host
