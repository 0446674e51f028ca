-- ===== src/Network/Laws.antt =====
-- Subnets as prefixes of octets, against config/networks.rs.
use swindon.Prelude.{
  ℕ, zero, suc, ◌/◌, ◌%◌, ◌≤◌, ◌≡◌, refl, Bool, false, ◌||◌, List, [], ◌∷◌, Option, none, some,
  arith, ltb, nat_beq, is_some, length, All, Option-cases, Bool-cases, inl, inr, string_eq,
}
use swindon.Outcome.{ok}
use swindon.Network.Subnets.{
  IpAddr, v4, v6, Subnet, ParsedSubnet, parsed, refused, find_slash, max_mask, with_mask, from_str,
  leading, same, same_network, matches, get_subnet,
}

abbrev pub IsIp : IpAddr → Type 0
IsIp (v4 octets) = length octets ≡ 4
IsIp (v6 octets) = length octets ≡ 16

-- The bits of an address.
abbrev pub bits : IpAddr → ℕ
bits (v4 octets) = 32
bits (v6 octets) = 128

abbrev pub IsSubnet : Subnet → Type 0
IsSubnet s = IsIp s.ip × (s.mask ≤ bits s.ip)

abbrev pub take : ℕ → List ℕ → List ℕ
take zero l = []
take (suc n) [] = []
take (suc n) (x ∷ l) = x ∷ take n l

-- The address and the network are of one kind, and agree in as many octets as the mask covers.
abbrev pub covers : IpAddr → IpAddr → ℕ → Bool
covers (v4 my) (v4 net) mask = same (take (mask / 8) my) (take (mask / 8) net)
covers (v6 my) (v6 net) mask = same (take (mask / 8) my) (take (mask / 8) net)
covers _ _ mask = false

abbrev pub any_covers : List Subnet → IpAddr → Bool
any_covers [] ip = false
any_covers (s ∷ list) ip = covers ip s.ip s.mask || any_covers list ip

leading-take : (n : ℕ) (l : List ℕ) → n ≤ length l → leading n l ≡ ok (take n l)
unfolding leading
leading-take zero l h = refl
leading-take (suc n) [] h = ground (arith, h)
leading-take (suc n) (x ∷ l) h = rw (leading-take n l (omega (arith, h))) refl

same_network-covers :
    (my net : List ℕ) (mask : ℕ)
    → mask / 8 ≤ length my
    → mask / 8 ≤ length net
    → same_network my net mask ≡ ok (same (take (mask / 8) my) (take (mask / 8) net))
unfolding same_network
same_network-covers my net mask a b =
    rw (leading-take (mask / 8) my a, leading-take (mask / 8) net b) refl

matches-covers :
    (my net : IpAddr) (mask : ℕ)
    → IsIp my
    → IsIp net
    → mask ≤ bits net
    → matches my net mask ≡ ok (covers my net mask)
unfolding matches
matches-covers (v4 a) (v4 b) m h i j =
    same_network-covers a b m (omega (arith, h, j)) (omega (arith, i, j))
matches-covers (v6 a) (v6 b) m h i j =
    same_network-covers a b m (omega (arith, h, j)) (omega (arith, i, j))
matches-covers (v4 a) (v6 b) m h i j = refl
matches-covers (v6 a) (v4 b) m h i j = refl

-- With well-formed subnets the lookup does not read past an address, and finds a subnet exactly
-- when one of the list covers the address.
pub get_subnet-covers :
    (list : List Subnet) (ip : IpAddr)
    → All IsSubnet list
    → IsIp ip
    → (found : Option Subnet) × (get_subnet list ip ≡ ok found)
      × (is_some found ≡ any_covers list ip)
unfolding get_subnet
get_subnet-covers [] ip h i = (none, refl, refl)
get_subnet-covers (s ∷ list) ip h i =
    let (found, e, f) = get_subnet-covers list ip h.1 i in
    elim (Bool-cases (covers ip s.ip s.mask)) [
      | inl b ↦
          (some s, rw (matches-covers ip s.ip s.mask i h.0.0 h.0.1, b) refl, ground (arith, b))
      | inr b ↦ (found, rw (matches-covers ip s.ip s.mask i h.0.0 h.0.1, b) e, ground (arith, b, f))
    ]

-- What was accepted is well-formed, and its mask ends between octets.
abbrev pub IsSound : ParsedSubnet → Type 0
IsSound (parsed s) = IsSubnet s × (s.mask % 8 ≡ 0)
IsSound (refused e) = Unit

max_mask-bits : (ip : IpAddr) (mask : ℕ) → ltb (max_mask ip) mask ≡ false → mask ≤ bits ip
max_mask-bits (v4 octets) mask c = ground (arith, c)
max_mask-bits (v6 octets) mask c = ground (arith, c)

max_mask-octets : (ip : IpAddr) → max_mask ip % 8 ≡ 0
max_mask-octets (v4 octets) = refl
max_mask-octets (v6 octets) = refl

with_mask-IsSound : (ip : IpAddr) (mask : ℕ) → IsIp ip → IsSound (with_mask ip mask)
unfolding with_mask
with_mask-IsSound ip mask i = elim (Bool-cases (nat_beq (mask % 8) 0)) [
  | inr b ↦ rw (b, with_mask) tt
  | inl b ↦ elim (Bool-cases (ltb (max_mask ip) mask)) [
    | inl c ↦ rw (b, c, with_mask) tt
    | inr c ↦ rw (b, c, with_mask) ((i, max_mask-bits ip mask c), ground (arith, b))
  ]
]

module _ (parse_ip : List ℕ → Option IpAddr) (parse_u32 : List ℕ → Option ℕ) where
  -- Every subnet that `from_str` accepts has an address of 4 or 16 octets and a mask that is a multiple
  -- of eight and no longer than the 32 or 128 bits of that address, if the parser of addresses yields
  -- so many octets.
  pub from_str-IsSound :
      (item : List ℕ)
      → ((text : List ℕ) (ip : IpAddr) → parse_ip text ≡ some ip → IsIp ip)
      → IsSound (from_str parse_ip parse_u32 item)
  unfolding from_str
  from_str-IsSound item p = elim (Option-cases (find_slash item)) [
    | inl e ↦ elim (Option-cases (parse_ip item)) [
      | inl f ↦ rw (e, f, from_str) tt
      | inr (ip, f) ↦
          rw (e, f, from_str)
            ((p item ip f, max_mask-bits ip (max_mask ip) (ground arith)), max_mask-octets ip)
    ]
    | inr ((before, after), e) ↦ elim (Option-cases (parse_ip before)) [
      | inl f ↦ rw (e, f, from_str) tt
      | inr (ip, f) ↦ elim (Option-cases (parse_u32 after)) [
        | inl g ↦ rw (e, f, g, from_str) tt
        | inr (mask, g) ↦ rw (e, f, g, from_str) (with_mask-IsSound ip mask (p before ip f))
      ]
    ]
  ]

  -- A single IPv4 address, written without a mask, lets in every address that differs from it in
  -- the last octet only.
  pub from_str-neighbours :
      (item : List ℕ) (a b c d e : ℕ)
      → find_slash item ≡ none
      → parse_ip item ≡ some (v4 (a ∷ b ∷ c ∷ d ∷ []))
      → (s : Subnet) × (from_str parse_ip parse_u32 item ≡ parsed s)
        × (get_subnet (s ∷ []) (v4 (a ∷ b ∷ c ∷ e ∷ [])) ≡ ok (some s))
  unfolding from_str get_subnet same_network leading
  from_str-neighbours item a b c d e f g =
      let s : Subnet = record { ip = v4 (a ∷ b ∷ c ∷ d ∷ []); mask = 24 } in
      (s, rw (f, g, from_str) refl, ground arith)
