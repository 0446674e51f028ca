-- ===== src/Network/SourceIp.antt =====
-- authorizers/source_ip.rs: `check`. What it notes for debugging is left out.
use swindon.Prelude.{
  ℕ, ◌+◌, Bool, true, false, ◌&&◌, String, List, [], ◌∷◌, Option, none, some, if◌then◌else◌, leb,
  is_some, unwrap_or, string_eq,
}
use swindon.Outcome.{Outcome, ok, ◌>>=◌}
use swindon.Std.HashMap.{HashMap, get}
use swindon.Network.Subnets.{IpAddr, Subnet, same, get_subnet}

pub record SourceIpAuthorizer : Type 0 where
  pub allowed_network : String
  pub forwarded_ip_header : Option (List ℕ)
  pub accept_forwarded_headers_from : Option String

abbrev pub Networks : Type 0
Networks = HashMap String (List Subnet)

abbrev pub lower : ℕ → ℕ
lower c = if leb b'A' c && leb c b'Z' then c + 32 else c

abbrev pub lowers : List ℕ → List ℕ
lowers [] = []
lowers (c ∷ cs) = lower c ∷ lowers cs

-- `name.eq_ignore_ascii_case(header)`
abbrev pub eq_ignore_ascii_case : List ℕ → List ℕ → Bool
eq_ignore_ascii_case a b = same (lowers a) (lowers b)

-- `forwarded`: the request comes from a network that may set the header.
unfoldable pub is_forwarded : SourceIpAuthorizer → Networks → IpAddr → Outcome Bool
is_forwarded cfg networks addr = elim cfg.accept_forwarded_headers_from [
  | none ↦ ok false
  | some netw ↦ elim (get networks netw) [
    | none ↦ ok false
    | some list ↦ do subnet ← get_subnet list addr; ok (is_some subnet)
  ]
]

abbrev pub Headers : Type 0
Headers = List (List ℕ × List ℕ)

-- `from_utf8` and `parse::<IpAddr>` together are the standard library's.
module _ (parse_ip : List ℕ → Option IpAddr) where
  -- The loop over the headers: `none` is the early return of `false`.
  unfoldable pub header_ip : List ℕ → Headers → Option IpAddr → Option (Option IpAddr)
  header_ip header [] ip = some ip
  header_ip header ((name, value) ∷ headers) ip =
      let skipped = header_ip header headers ip in
      let taken = header_ip header headers (parse_ip value) in
      if eq_ignore_ascii_case name header
      then elim (parse_ip value) [ none ↦ none | some parsed ↦ taken ]
      else skipped

  unfoldable pub source_ip : SourceIpAuthorizer → IpAddr → Headers → Bool → Option IpAddr
  unfolding header_ip
  source_ip cfg addr headers false = some addr
  source_ip cfg addr headers true = elim cfg.forwarded_ip_header [
    | none ↦ some addr
    | some header ↦ elim (header_ip header headers none) [
      | none ↦ none
      | some ip ↦ some (unwrap_or ip addr)
    ]
  ]

  -- The test of the allowed network.
  unfoldable pub is_allowed : SourceIpAuthorizer → Networks → IpAddr → Outcome Bool
  is_allowed cfg networks ip = elim (get networks cfg.allowed_network) [
    | none ↦ ok false
    | some list ↦ do subnet ← get_subnet list ip; ok (is_some subnet)
  ]

  unfoldable pub check : SourceIpAuthorizer → Networks → IpAddr → Headers → Outcome Bool
  unfolding is_forwarded source_ip is_allowed
  check cfg networks addr headers = do
    forwarded ← is_forwarded cfg networks addr
    elim (source_ip cfg addr headers forwarded) [
      | none ↦ ok false
      | some ip ↦ is_allowed cfg networks ip
    ]
