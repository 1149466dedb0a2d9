-- ===== src/Host/Choice.antt =====
-- Which address of the host is taken (internal/controller/devtask/gateway_builder.go).
use kai_operator.Base.{
  String, ◌≡◌, refl, true, false, none, some, Option, List, [], ◌∷◌, arith, Bool, ◌∙◌, not, ◌||◌,
  inl, inr, ◌⊎◌, if◌then◌else◌,
}
use kai_operator.Client.{Result, ok}
use kai_operator.Host.{Interface, Host}
use kai_operator.Host.Address.{
  line_ip, lines_ip, first_ipv4, interfaces_ip, get_default_host_ip, get_colima_host_ip, or_local,
  contains, split,
}

-- An IPv4 address in a list of addresses, and in those of an interface that can be read.
abbrev pub Has : String → List (Option String) → Type 0
Has ip [] = ⊥
Has ip (a ∷ l) = (a ≡ some ip) ⊎ Has ip l

abbrev pub HasReadable : String → Option (List (Option String)) → Type 0
HasReadable ip none = ⊥
HasReadable ip (some l) = Has ip l

-- An interface that is up, is no loopback and has the address.
abbrev pub Serves : String → List Interface → Type 0
Serves ip [] = ⊥
Serves ip (i ∷ l) =
    ((i.up ≡ true) × (i.loopback ≡ false) × HasReadable ip i.addresses) ⊎ Serves ip l

first_ipv4-Has : (l : List (Option String)) (ip : String) → first_ipv4 l ≡ some ip → Has ip l
unfolding first_ipv4
first_ipv4-Has [] ip e = ground arith
first_ipv4-Has (none ∷ l) ip e = inr (first_ipv4-Has l ip e)
first_ipv4-Has (some a ∷ l) ip e = inl e

-- What `interfaces_ip` does with the addresses of an interface that it looks at.
chosen :
    (a : Option (List (Option String))) (later : Option String) (ip : String)
    → (elim a [
      | none ↦ later
      | some addrs ↦ elim (first_ipv4 addrs) [ some x ↦ some x | none ↦ later ]
    ])
      ≡ some ip
    → HasReadable ip a ⊎ (later ≡ some ip)
chosen none later ip e = inr e
chosen (some addrs) later ip e = go (first_ipv4 addrs) refl e
  where
    go :
        (o : Option String)
        → first_ipv4 addrs ≡ o
        → (elim o [ some x ↦ some x | none ↦ later ]) ≡ some ip
        → Has ip addrs ⊎ (later ≡ some ip)
    go none h k = inr k
    go (some x) h k = inl (first_ipv4-Has addrs ip (h ∙ k))

-- The address that is taken from the interfaces belongs to one that is up and no loopback.
pub interfaces_ip-Serves :
    (l : List Interface) (ip : String) → interfaces_ip l ≡ some ip → Serves ip l
unfolding interfaces_ip
interfaces_ip-Serves [] ip e = ground arith
interfaces_ip-Serves (i ∷ l) ip e = go (interfaces_ip-Serves l ip) i.up i.loopback refl refl e
  where
    go :
        (interfaces_ip l ≡ some ip → Serves ip l)
        → (up loop : Bool) → i.up ≡ up
        → i.loopback ≡ loop
        → (if not up || loop then interfaces_ip l else elim i.addresses [
          | none ↦ interfaces_ip l
          | some addrs ↦ elim (first_ipv4 addrs) [ some x ↦ some x | none ↦ interfaces_ip l ]
        ])
          ≡ some ip
        → Serves ip (i ∷ l)
    go rest false loop h k e = inr (rest e)
    go rest true true h k e = inr (rest e)
    go rest true false h k e = elim (chosen i.addresses (interfaces_ip l) ip e) [
      | inl has ↦ inl (h, k, has)
      | inr later ↦ inr (rest later)
    ]

-- A line of the output gives an address only if it parses as one.
line_ip-parses : (p : String → Bool) (line ip : String) → line_ip p line ≡ some ip → p ip ≡ true
unfolding line_ip
line_ip-parses p line ip e = ground arith

lines_ip-parses :
    (p : String → Bool) (ls : List String) (ip : String) → lines_ip p ls ≡ some ip → p ip ≡ true
unfolding lines_ip
lines_ip-parses p [] ip e = ground arith
lines_ip-parses p (l ∷ ls) ip e = go (lines_ip-parses p ls ip) (line_ip p l) refl e
  where
    go :
        (lines_ip p ls ≡ some ip → p ip ≡ true)
        → (o : Option String) → line_ip p l ≡ o
        → (elim o [ some x ↦ some x | none ↦ lines_ip p ls ]) ≡ some ip
        → p ip ≡ true
    go rest none h k = rest k
    go rest (some x) h k = line_ip-parses p l ip (h ∙ k)

-- What can be said of an address of the host.
abbrev pub IsSourced : Host → String → Type 0
IsSourced h ip =
    (h.parses_ip ip ≡ true)
    ⊎ ((l : List Interface) × (h.interfaces ≡ some l) × Serves ip l)
    ⊎ (ip ≡ "127.0.0.1")

default-IsSourced : (h : Host) → IsSourced h (get_default_host_ip h)
unfolding get_default_host_ip
default-IsSourced h = go h.interfaces refl
  where
    found :
        (l : List Interface) (o : Option String)
        → h.interfaces ≡ some l
        → interfaces_ip l ≡ o
        → IsSourced h (or_local o)
    found l none e k = inr (inr refl)
    found l (some ip) e k = inr (inl (l, e, interfaces_ip-Serves l ip k))

    go :
        (o : Option (List Interface))
        → h.interfaces ≡ o
        → IsSourced h (elim o [ none ↦ "127.0.0.1" | some l ↦ or_local (interfaces_ip l) ])
    go none e = inr (inr refl)
    go (some l) e = found l (interfaces_ip l) e refl

-- The same of a result, which is no error.
abbrev pub IsSourcedResult : Host → Result String → Type 0
IsSourcedResult h (ok ip) = IsSourced h ip
IsSourcedResult h _ = ⊥

-- Where the address of the host comes from: it is found without an error, and is a text that parses as
-- an address, an address of an interface that is up and no loopback, or the local address.
pub host_ip_source : (h : Host) → IsSourcedResult h (get_colima_host_ip h)
unfolding get_colima_host_ip
host_ip_source h = go h.colima
  where
    found :
        (ls : List String) (o : Option String)
        → lines_ip h.parses_ip ls ≡ o
        → IsSourcedResult h (elim o [ some ip ↦ ok ip | none ↦ ok (get_default_host_ip h) ])
    found ls none e = default-IsSourced h
    found ls (some ip) e = inl (lines_ip-parses h.parses_ip ls ip e)

    lines :
        (b : Bool) (ls : List String)
        → IsSourcedResult h (
            if b
            then elim (lines_ip h.parses_ip ls) [
              | some ip ↦ ok ip
              | none ↦ ok (get_default_host_ip h)
            ]
            else ok (get_default_host_ip h))
    lines true ls = found ls (lines_ip h.parses_ip ls) refl
    lines false ls = default-IsSourced h

    go :
        (o : Option String)
        → IsSourcedResult h (elim o [
          | none ↦ ok (get_default_host_ip h)
          | some out ↦
              if contains out "\"IP\":"
              then elim (lines_ip h.parses_ip (split b'\n' out)) [
                | some ip ↦ ok ip
                | none ↦ ok (get_default_host_ip h)
              ]
              else ok (get_default_host_ip h)
        ])
    go none = default-IsSourced h
    go (some out) = lines (contains out "\"IP\":") (split b'\n' out)
