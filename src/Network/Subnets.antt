-- ===== src/Network/Subnets.antt =====
-- config/networks.rs: subnets, as they are written in the configuration and as they are looked up.
use swindon.Prelude.{
  ℕ, zero, suc, ◌/◌, ◌%◌, Bool, true, false, not, ◌&&◌, List, [], ◌∷◌, Option, none, some,
  if◌then◌else◌, ltb, nat_beq,
}
use swindon.Outcome.{Outcome, ok, panic, ◌>>=◌}

-- `std::net::IpAddr`, by its octets.
pub data IpAddr : Type 0 where
  v4 v6 : List ℕ → IpAddr

pub record Subnet : Type 0 where
  pub ip : IpAddr
  pub mask : ℕ

-- The message of an error of the standard library's is left out.
pub data SubnetError : Type 0 where
  not_an_ip not_a_number not_multiple_of_eight mask_too_long : SubnetError

pub data ParsedSubnet : Type 0 where
  parsed : Subnet → ParsedSubnet
  refused : SubnetError → ParsedSubnet

-- `item.find('/')`, and the two slices around it.
abbrev pub find_slash : List ℕ → Option (List ℕ × List ℕ)
find_slash [] = none
find_slash (c ∷ item) =
    let rest = find_slash item in
    if nat_beq c b'/'
    then some ([], item)
    else elim rest [ none ↦ none | some (before, after) ↦ some (c ∷ before, after) ]

abbrev pub max_mask : IpAddr → ℕ
max_mask (v4 octets) = 24
max_mask (v6 octets) = 128

-- The tests of a mask that was written out.
unfoldable pub with_mask : IpAddr → ℕ → ParsedSubnet
with_mask ip mask =
    if not (nat_beq (mask % 8) 0)
    then refused not_multiple_of_eight
    else if ltb (max_mask ip) mask
    then refused mask_too_long
    else parsed (record { ip = ip; mask = mask })

module _ (parse_ip : List ℕ → Option IpAddr) (parse_u32 : List ℕ → Option ℕ) where
  -- `Subnet::from_str`; the two parsers are the standard library's.
  unfoldable pub from_str : List ℕ → ParsedSubnet
  unfolding with_mask
  from_str item = elim (find_slash item) [
    | some (before, after) ↦ elim (parse_ip before) [
      | none ↦ refused not_an_ip
      | some ip ↦ elim (parse_u32 after) [
        | none ↦ refused not_a_number
        | some mask ↦ with_mask ip mask
      ]
    ]
    | none ↦ elim (parse_ip item) [
      | none ↦ refused not_an_ip
      | some ip ↦ parsed (record { ip = ip; mask = max_mask ip })
    ]
  ]

-- `octets()[..bytes]`
unfoldable pub leading : ℕ → List ℕ → Outcome (List ℕ)
leading zero octets = ok []
leading (suc bytes) [] = panic
leading (suc bytes) (octet ∷ octets) = do rest ← leading bytes octets; ok (octet ∷ rest)

abbrev pub same : List ℕ → List ℕ → Bool
same [] [] = true
same (x ∷ xs) (y ∷ ys) = nat_beq x y && same xs ys
same _ _ = false

-- The test of both arms of the match.
unfoldable pub same_network : List ℕ → List ℕ → ℕ → Outcome Bool
unfolding leading
same_network my net mask = do a ← leading (mask / 8) my; b ← leading (mask / 8) net; ok (same a b)

unfoldable pub matches : IpAddr → IpAddr → ℕ → Outcome Bool
unfolding same_network
matches (v4 my) (v4 net) mask = same_network my net mask
matches (v6 my) (v6 net) mask = same_network my net mask
matches _ _ mask = ok false

-- `NetworkList::get_subnet`
unfoldable pub get_subnet : List Subnet → IpAddr → Outcome (Option Subnet)
unfolding matches
get_subnet [] ip = ok none
get_subnet (item ∷ list) ip =
    let rest = get_subnet list ip in
    do found ← matches ip item.ip item.mask; if found then ok (some item) else rest
