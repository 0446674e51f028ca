-- ===== src/Network/Decision.antt =====
-- `check` of authorizers/source_ip.rs, against networks as prefixes of octets.
use swindon.Prelude.{
  ℕ, ◌≡◌, refl, subst, sym, Bool, true, false, String, List, [], ◌∷◌, Option, none, some, arith,
  is_some, All, not, unwrap_or, if◌then◌else◌, Option-cases, Bool-cases, inl, inr, string_eq,
}
use swindon.Outcome.{Outcome, ok, ◌>>=◌}
use swindon.Std.HashMap.{get}
use swindon.Network.Subnets.{IpAddr, Subnet, get_subnet}
use swindon.Network.SourceIp.{
  SourceIpAuthorizer, Networks, Headers, is_forwarded, header_ip, source_ip, is_allowed, check,
  eq_ignore_ascii_case,
}
use swindon.Network.Laws.{IsIp, IsSubnet, any_covers, get_subnet-covers}

abbrev pub IsNetworks : Networks → Type 0
IsNetworks networks =
    (name : String) (list : List Subnet) → get networks name ≡ some list → All IsSubnet list

-- The address is covered by the network of that name, which has to be there.
abbrev pub within : Networks → String → IpAddr → Bool
within networks name ip = elim (get networks name) [ none ↦ false | some list ↦ any_covers list ip ]

abbrev pub is_trusted : SourceIpAuthorizer → Networks → IpAddr → Bool
is_trusted cfg networks addr = elim cfg.accept_forwarded_headers_from [
  | none ↦ false
  | some name ↦ within networks name addr
]

lookup-within :
    (list : List Subnet) (ip : IpAddr)
    → All IsSubnet list
    → IsIp ip
    → (get_subnet list ip >>= λ subnet. ok (is_some subnet)) ≡ ok (any_covers list ip)
lookup-within list ip h i = let (found, e, f) = get_subnet-covers list ip h i in rw (e, f) refl

lookup_option :
    (o : Option (List Subnet)) (ip : IpAddr)
    → ((list : List Subnet) → o ≡ some list → All IsSubnet list)
    → IsIp ip
    → elim o as (λ x. Outcome Bool) [
      | none ↦ ok false
      | some list ↦ get_subnet list ip >>= λ subnet. ok (is_some subnet)
    ]
      ≡ ok (elim o [ none ↦ false | some list ↦ any_covers list ip ])
lookup_option none ip n i = refl
lookup_option (some list) ip n i = lookup-within list ip (n list refl) i

is_forwarded-is_trusted :
    (cfg : SourceIpAuthorizer) (networks : Networks) (addr : IpAddr)
    → IsNetworks networks
    → IsIp addr
    → is_forwarded cfg networks addr ≡ ok (is_trusted cfg networks addr)
unfolding is_forwarded
is_forwarded-is_trusted cfg networks addr n i = by_name cfg.accept_forwarded_headers_from
  where
    by_name :
        (o : Option String)
        → elim o as (λ x. Outcome Bool) [
          | none ↦ ok false
          | some netw ↦ elim (get networks netw) [
            | none ↦ ok false
            | some list ↦ get_subnet list addr >>= λ subnet. ok (is_some subnet)
          ]
        ]
          ≡ ok (elim o [ none ↦ false | some name ↦ within networks name addr ])
    by_name none = refl
    by_name (some name) = lookup_option (get networks name) addr (n name) i

-- The values of the headers of a name, in the order in which they came.
abbrev values : List ℕ → Headers → List (List ℕ)
values header [] = []
values header ((name, value) ∷ headers) =
    let rest = values header headers in
    if eq_ignore_ascii_case name header then value ∷ rest else rest

-- The last address, or else the one that is given.
abbrev last_or : IpAddr → List IpAddr → IpAddr
last_or ip [] = ip
last_or ip (x ∷ xs) = last_or x xs

abbrev OptionIsIp : Option IpAddr → Type 0
OptionIsIp none = Unit
OptionIsIp (some ip) = IsIp ip

module _ (parse_ip : List ℕ → Option IpAddr) where
  abbrev parse_all : List (List ℕ) → Option (List IpAddr)
  parse_all [] = some []
  parse_all (text ∷ texts) = elim (parse_ip text) [
    | none ↦ none
    | some ip ↦ elim (parse_all texts) [ none ↦ none | some ips ↦ some (ip ∷ ips) ]
  ]

  -- Who a request is from: the peer, unless it is trusted and a header is configured. Then every
  -- header of that name has to be an address, and the last one counts, if there is one.
  abbrev pub sender : SourceIpAuthorizer → Bool → IpAddr → Headers → Option IpAddr
  sender cfg trusted addr headers =
      if not trusted then some addr else elim cfg.forwarded_ip_header [
        | none ↦ some addr
        | some header ↦ elim (parse_all (values header headers)) [
          | none ↦ none
          | some ips ↦ some (last_or addr ips)
        ]
      ]

  header_ip-parse_all :
      (header : List ℕ) (headers : Headers) (ip : Option IpAddr) (addr : IpAddr)
      → elim (header_ip parse_ip header headers ip) as (λ x. Option IpAddr) [
        | none ↦ none
        | some found ↦ some (unwrap_or found addr)
      ]
        ≡ elim (parse_all (values header headers)) [
          | none ↦ none
          | some ips ↦ some (last_or (unwrap_or ip addr) ips)
        ]
  unfolding header_ip
  header_ip-parse_all header [] ip addr = refl
  header_ip-parse_all header ((name, value) ∷ headers) ip addr =
      elim (Bool-cases (eq_ignore_ascii_case name header)) [
        | inr b ↦ ground (arith, b, header_ip-parse_all header headers ip addr)
        | inl b ↦ elim (Option-cases (parse_ip value)) [
          | inl f ↦ ground (arith, b, f)
          | inr (taken, f) ↦
              ground (arith, b, f, header_ip-parse_all header headers (parse_ip value) addr)
        ]
      ]

  source_ip-sender :
      (cfg : SourceIpAuthorizer) (trusted : Bool) (addr : IpAddr) (headers : Headers)
      → source_ip parse_ip cfg addr headers trusted ≡ sender cfg trusted addr headers
  unfolding source_ip
  source_ip-sender cfg false addr headers = refl
  source_ip-sender cfg true addr headers = elim (Option-cases cfg.forwarded_ip_header) [
    | inl f ↦ ground (arith, f)
    | inr (header, f) ↦ ground (arith, f, header_ip-parse_all header headers none addr)
  ]

  header_ip-IsIp :
      (header : List ℕ) (headers : Headers) (ip : Option IpAddr) (found : Option IpAddr)
      → ((text : List ℕ) (ip : IpAddr) → parse_ip text ≡ some ip → IsIp ip)
      → OptionIsIp ip
      → header_ip parse_ip header headers ip ≡ some found
      → OptionIsIp found
  unfolding header_ip
  header_ip-IsIp header [] ip found p i e = subst OptionIsIp (ground (arith, e)) i
  header_ip-IsIp header ((name, value) ∷ headers) ip found p i e =
      elim (Bool-cases (eq_ignore_ascii_case name header)) [
        | inr b ↦ header_ip-IsIp header headers ip found p i (ground (arith, e, b))
        | inl b ↦ elim (Option-cases (parse_ip value)) [
          | inl f ↦ absurd (ground (arith, e, b, f))
          | inr (taken, f) ↦
              header_ip-IsIp header headers (parse_ip value) found p
                (subst OptionIsIp (sym f) (p value taken f)) (ground (arith, e, b, f))
        ]
      ]

  source_ip-IsIp :
      (cfg : SourceIpAuthorizer) (addr : IpAddr) (headers : Headers) (forwarded : Bool)
      (ip : IpAddr)
      → ((text : List ℕ) (ip : IpAddr) → parse_ip text ≡ some ip → IsIp ip)
      → IsIp addr
      → source_ip parse_ip cfg addr headers forwarded ≡ some ip
      → IsIp ip
  unfolding source_ip
  source_ip-IsIp cfg addr headers false ip p i e = subst IsIp (ground (arith, e)) i
  source_ip-IsIp cfg addr headers true ip p i e = elim (Option-cases cfg.forwarded_ip_header) [
    | inl f ↦ subst IsIp (ground (arith, e, f)) i
    | inr (header, f) ↦ elim (Option-cases (header_ip parse_ip header headers none)) [
      | inl g ↦ absurd (ground (arith, e, f, g))
      | inr (none, g) ↦ subst IsIp (ground (arith, e, f, g)) i
      | inr (some taken, g) ↦
          subst IsIp (ground (arith, e, f, g))
            (header_ip-IsIp header headers none (some taken) p tt g)
    ]
  ]

  is_allowed-within :
      (cfg : SourceIpAuthorizer) (networks : Networks) (ip : IpAddr)
      → IsNetworks networks
      → IsIp ip
      → is_allowed parse_ip cfg networks ip ≡ ok (within networks cfg.allowed_network ip)
  unfolding is_allowed
  is_allowed-within cfg networks ip n i =
      lookup_option (get networks cfg.allowed_network) ip (n cfg.allowed_network) i

  -- `check` does not panic, and lets a request in exactly when its sender is within the allowed
  -- network. The sender is the peer, unless the peer is within the network that may forward and a
  -- header is configured: then a header of that name that is not an address refuses the request,
  -- and else the last one counts, or the peer where there is none. The networks are well-formed,
  -- and so are the peer's address and every parsed one.
  pub check_lem :
      (cfg : SourceIpAuthorizer) (networks : Networks) (addr : IpAddr) (headers : Headers)
      → IsNetworks networks
      → IsIp addr
      → ((text : List ℕ) (ip : IpAddr) → parse_ip text ≡ some ip → IsIp ip)
      → check parse_ip cfg networks addr headers
        ≡ ok (elim (sender cfg (is_trusted cfg networks addr) addr headers) [
          | none ↦ false
          | some ip ↦ within networks cfg.allowed_network ip
        ])
  unfolding check
  check_lem cfg networks addr headers n i p =
      let trusted = is_trusted cfg networks addr in
      rw
        (
          is_forwarded-is_trusted cfg networks addr n i,
          sym (source_ip-sender cfg trusted addr headers),
        )
        (by_source (source_ip parse_ip cfg addr headers trusted)
          (λ ip. source_ip-IsIp cfg addr headers trusted ip p i))
    where
      by_source :
          (o : Option IpAddr)
          → ((ip : IpAddr) → o ≡ some ip → IsIp ip)
          → elim o as (λ x. Outcome Bool) [
            | none ↦ ok false
            | some ip ↦ is_allowed parse_ip cfg networks ip
          ]
            ≡ ok (elim o [ none ↦ false | some ip ↦ within networks cfg.allowed_network ip ])
      by_source none k = refl
      by_source (some ip) k = is_allowed-within cfg networks ip n (k ip refl)
