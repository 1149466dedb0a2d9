-- ===== src/Host/Address.antt =====
-- The address of the host (GetColimaHostIP and GetDefaultHostIP of
-- internal/controller/devtask/gateway_builder.go; internal/controller/inference/inference_helpers.go
-- has the second once more).
use Prim.Native.Char.{Char, code}
use text.Mathlib.Text.{find?}
use kai_operator.Base.{
  ℕ, String, ◌<>◌, Bool, not, Option, none, some, List, [], ◌∷◌, ◌==◌, ◌&&◌, ◌||◌, eqb,
  if◌then◌else◌, is_some,
}
use kai_operator.Client.{Result, ok}
use kai_operator.Host.{Interface, Host}

abbrev push : String → Char → String
push s c = s <> String.◌∷◌ c String.[]

-- `strings.Split(text, sep)` for one byte `sep`; `current` is the part that is being read.
unfoldable pub split_from : ℕ → String → String → List String
split_from sep current String.[] = current ∷ []
split_from sep current (String.◌∷◌ c s) =
    let closed = current ∷ split_from sep "" s in
    let longer = split_from sep (push current c) s in if eqb (code c) sep then closed else longer

abbrev pub split : ℕ → String → List String
split sep text = split_from sep "" text

-- The characters of the cutset ` "`.
abbrev is_cut : Char → Bool
is_cut c = eqb (code c) b' ' || eqb (code c) b'"'

trim_left : String → String
trim_left String.[] = ""
trim_left (String.◌∷◌ c s) = let rest = trim_left s in if is_cut c then rest else String.◌∷◌ c s

trim_right : String → String
trim_right String.[] = ""
trim_right (String.◌∷◌ c s) =
    let rest = trim_right s in if is_cut c && rest == "" then "" else String.◌∷◌ c rest

-- `strings.Trim(text, " \"")`.
unfoldable pub trim : String → String
unfolding trim_left trim_right
trim text = trim_right (trim_left text)

abbrev pub contains : String → String → Bool
contains text part = is_some (find? text part)

abbrev first : List String → String
first [] = ""
first (s ∷ _) = s

-- The address in a line of the output, if it has one.
unfoldable pub line_ip : (String → Bool) → String → Option String
unfolding trim split_from
line_ip parses line = if not (contains line "\"IP\"") then none else elim (split b':' line) [
  | [] ↦ none
  | part ∷ parts ↦ elim parts [
    | [] ↦ none
    | second ∷ _ ↦ let ip = trim (first (split b',' second)) in if parses ip then some ip else none
  ]
]

unfoldable pub lines_ip : (String → Bool) → List String → Option String
unfolding line_ip
lines_ip parses [] = none
lines_ip parses (line ∷ rest) = elim (line_ip parses line) [
  | some ip ↦ some ip
  | none ↦ lines_ip parses rest
]

unfoldable pub first_ipv4 : List (Option String) → Option String
first_ipv4 [] = none
first_ipv4 (some ip ∷ rest) = some ip
first_ipv4 (none ∷ rest) = first_ipv4 rest

-- The first IPv4 address of an interface that is up and no loopback.
unfoldable pub interfaces_ip : List Interface → Option String
unfolding first_ipv4
interfaces_ip [] = none
interfaces_ip (i ∷ rest) =
    let later = interfaces_ip rest in
    if not i.up || i.loopback then later else elim i.addresses [
      | none ↦ later
      | some addrs ↦ elim (first_ipv4 addrs) [ some ip ↦ some ip | none ↦ later ]
    ]

abbrev pub or_local : Option String → String
or_local none = "127.0.0.1"
or_local (some ip) = ip

unfoldable pub get_default_host_ip : Host → String
unfolding interfaces_ip
get_default_host_ip h = elim h.interfaces [
  | none ↦ "127.0.0.1"
  | some l ↦ or_local (interfaces_ip l)
]

-- The error result is nil on every path.
unfoldable pub get_colima_host_ip : Host → Result String
unfolding lines_ip get_default_host_ip
get_colima_host_ip h = elim h.colima [
  | none ↦ ok (get_default_host_ip h)
  | some out ↦
      if contains out "\"IP\":"
      then elim (lines_ip h.parses_ip (split b'\n' out)) [
        | some ip ↦ ok ip
        | none ↦ ok (get_default_host_ip h)
      ]
      else ok (get_default_host_ip h)
]
