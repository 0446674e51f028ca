-- ===== src/Examples/Networks.antt =====
-- networks.rs and source_ip.rs on concrete inputs, with parsers for addresses of four digits.
use swindon.Prelude.{
  ℕ, ◌+◌, ◌-◌, ◌*◌, ◌≡◌, refl, true, false, ◌&&◌, List, [], ◌∷◌, Option, none, some, arith,
  if◌then◌else◌, is_some, nat_beq, All, ◌==◌, string_eq, Bool-cases, inl, inr, subst,
}
use swindon.Outcome.{ok}
use swindon.Std.HashMap.{get}
use swindon.Intern.{codes}
use swindon.Network.Subnets.{IpAddr, v4, Subnet, parsed, from_str, get_subnet}
use swindon.Network.SourceIp.{SourceIpAuthorizer, Networks, Headers, check}
use swindon.Network.Decision.{sender, within, is_trusted, IsNetworks, check_lem}
use swindon.Network.Laws.{
  IsIp, IsSubnet, IsSound, any_covers, get_subnet-covers, from_str-IsSound, from_str-neighbours,
}

abbrev parse_ip : List ℕ → Option IpAddr
parse_ip (a ∷ p ∷ b ∷ q ∷ c ∷ r ∷ d ∷ []) =
    if nat_beq p b'.' && (nat_beq q b'.' && nat_beq r b'.')
    then some (v4 ((a - b'0') ∷ (b - b'0') ∷ (c - b'0') ∷ (d - b'0') ∷ []))
    else none
parse_ip _ = none

abbrev parse_u32 : List ℕ → Option ℕ
parse_u32 (a ∷ b ∷ []) = some ((a - b'0') * 10 + (b - b'0'))
parse_u32 _ = none

parse_ip-IsIp : (text : List ℕ) (ip : IpAddr) → parse_ip text ≡ some ip → IsIp ip
parse_ip-IsIp [] ip e = absurd (ground (arith, e))
parse_ip-IsIp (a ∷ []) ip e = absurd (ground (arith, e))
parse_ip-IsIp (a ∷ p ∷ []) ip e = absurd (ground (arith, e))
parse_ip-IsIp (a ∷ p ∷ b ∷ []) ip e = absurd (ground (arith, e))
parse_ip-IsIp (a ∷ p ∷ b ∷ q ∷ []) ip e = absurd (ground (arith, e))
parse_ip-IsIp (a ∷ p ∷ b ∷ q ∷ c ∷ []) ip e = absurd (ground (arith, e))
parse_ip-IsIp (a ∷ p ∷ b ∷ q ∷ c ∷ r ∷ []) ip e = absurd (ground (arith, e))
parse_ip-IsIp (a ∷ p ∷ b ∷ q ∷ c ∷ r ∷ d ∷ x ∷ text) ip e = absurd (ground (arith, e))
parse_ip-IsIp (a ∷ p ∷ b ∷ q ∷ c ∷ r ∷ d ∷ []) ip e =
    elim (Bool-cases (nat_beq p b'.' && (nat_beq q b'.' && nat_beq r b'.'))) [
      | inl h ↦
          let read : IpAddr = v4 ((a - b'0') ∷ (b - b'0') ∷ (c - b'0') ∷ (d - b'0') ∷ []) in
          let same : read ≡ ip = ground (arith, e, h) in subst IsIp same refl
      | inr h ↦ absurd (ground (arith, e, h))
    ]

abbrev lan : Subnet
lan = record { ip = v4 (1 ∷ 2 ∷ 3 ∷ 4 ∷ []); mask = 16 }

abbrev proxies : Subnet
proxies = record { ip = v4 (9 ∷ 9 ∷ 9 ∷ 9 ∷ []); mask = 24 }

abbrev networks : Networks
networks = ("lan", lan ∷ []) ∷ ("proxies", proxies ∷ []) ∷ []

networks-IsNetworks : IsNetworks networks
unfolding get
networks-IsNetworks name list e = elim (Bool-cases ("lan" == name)) [
  | inl h ↦ subst (All IsSubnet) (lan_list h) ((refl, omega arith), tt)
  | inr h ↦ elim (Bool-cases ("proxies" == name)) [
    | inl k ↦ subst (All IsSubnet) (proxies_list h k) ((refl, omega arith), tt)
    | inr k ↦ absurd (ground (arith, e, h, k))
  ]
]
  where
    lan_list : ("lan" == name) ≡ true → (lan ∷ []) ≡ list
    lan_list h = ground (arith, e, h)

    proxies_list : ("lan" == name) ≡ false → ("proxies" == name) ≡ true → (proxies ∷ []) ≡ list
    proxies_list h k = ground (arith, e, h, k)

get_subnet-covers_example :
    (found : Option Subnet) × (get_subnet (lan ∷ []) (v4 (1 ∷ 2 ∷ 8 ∷ 8 ∷ [])) ≡ ok found)
    × (is_some found ≡ any_covers (lan ∷ []) (v4 (1 ∷ 2 ∷ 8 ∷ 8 ∷ [])))
get_subnet-covers_example =
    get_subnet-covers (lan ∷ []) (v4 (1 ∷ 2 ∷ 8 ∷ 8 ∷ [])) ((refl, omega arith), tt) refl

abbrev written : List ℕ
written = codes "1.2.3.4/16"

from_str-IsSound_example : IsSound (from_str parse_ip parse_u32 written)
from_str-IsSound_example = from_str-IsSound parse_ip parse_u32 written parse_ip-IsIp

abbrev single : List ℕ
single = codes "1.2.3.4"

from_str-neighbours_example :
    (s : Subnet) × (from_str parse_ip parse_u32 single ≡ parsed s)
    × (get_subnet (s ∷ []) (v4 (1 ∷ 2 ∷ 3 ∷ 200 ∷ [])) ≡ ok (some s))
from_str-neighbours_example = from_str-neighbours parse_ip parse_u32 single 1 2 3 4 200 refl refl

abbrev authorizer : SourceIpAuthorizer
authorizer = record {
  allowed_network = "lan";
  forwarded_ip_header = some (codes "X-Real-IP");
  accept_forwarded_headers_from = some "proxies";
}

abbrev headers : Headers
headers = (codes "x-real-ip", codes "1.2.3.4") ∷ []

check_lem_example :
    check parse_ip authorizer networks (v4 (9 ∷ 9 ∷ 9 ∷ 7 ∷ [])) headers
    ≡ ok
        (elim (sender parse_ip authorizer
          (is_trusted authorizer networks (v4 (9 ∷ 9 ∷ 9 ∷ 7 ∷ [])))
          (v4 (9 ∷ 9 ∷ 9 ∷ 7 ∷ []))
          headers) [ none ↦ false | some ip ↦ within networks "lan" ip ])
check_lem_example =
    check_lem parse_ip authorizer networks (v4 (9 ∷ 9 ∷ 9 ∷ 7 ∷ [])) headers networks-IsNetworks
      refl parse_ip-IsIp
