-- ===== src/WireGuard/Address/Mask.antt =====
-- The netmask of a prefix length (src/WireGuardManager.cpp, parseTunnelAddress).
use native.Mathlib.Nat.{pow-le-pow_right}
use birdnetgo_m5stack_atom_e.Prelude.{
  ℕ, ◌+◌, ◌-◌, ◌*◌, ◌^◌, ◌≤◌, ◌<◌, ◌≡◌, refl, arith, Bool-cases, inl, inr, none, some, ◌==◌, ==_iff,
  Option-cases, take, drop,
}
use birdnetgo_m5stack_atom_e.Prelude.Int.{ℤ, pos, negsuc}
use birdnetgo_m5stack_atom_e.Prelude.Text.{Text, index_of}
use birdnetgo_m5stack_atom_e.WireGuard.Address.{
  IpAddress, Parsers, address_of_word, mask_word, valid_prefix, parse_tunnel_address,
}

-- The number that four octets stand for, the first octet the highest.
abbrev pub word_of_address : IpAddress → ℕ
word_of_address a = a.octet0 * 2 ^ 24 + a.octet1 * 2 ^ 16 + a.octet2 * 2 ^ 8 + a.octet3

word_of_address-address_of_word : (m : ℕ) → m < 2 ^ 32 → word_of_address (address_of_word m) ≡ m
unfolding address_of_word
word_of_address-address_of_word m h = omega arith

pow_two_le : (i j : ℕ) → i ≤ j → 2 ^ i ≤ 2 ^ j
pow_two_le i j h = pow-le-pow_right {n = 2} (omega arith) {i = i} {j = j} h

mask_word_sum : (p : ℕ) → 1 ≤ p → p ≤ 32 → mask_word p + 2 ^ (32 - p) ≡ 2 ^ 32
unfolding mask_word
mask_word_sum p lo hi = elim (Bool-cases (p == 32)) [
  | inl whole ↦ let e : p ≡ 32 = (==_iff p 32).0 whole in rw e
  | inr part ↦
      let top : 2 ^ (32 - p) ≤ 2 ^ 32 = pow_two_le (32 - p) 32 (omega arith) in
      let low : 2 ^ 0 ≤ 2 ^ (32 - p) = pow_two_le 0 (32 - p) (omega arith) in rw part (omega arith)
]

mask_word-lt : (p : ℕ) → 1 ≤ p → p ≤ 32 → mask_word p < 2 ^ 32
mask_word-lt p lo hi =
    let low : 2 ^ 0 ≤ 2 ^ (32 - p) = pow_two_le 0 (32 - p) (omega arith) in
    omega (arith, mask_word_sum p lo hi)

-- What a tunnel address that parses was made of.
pub record IsParsed (parsers : Parsers) (cidr : Text) (ip mask : IpAddress) (slash p : ℕ)
    : Type 0 where
  pub slash_at : index_of b'/' cidr ≡ some slash
  pub prefix_read : parsers.to_int (drop (slash + 1) cidr) ≡ pos p
  pub prefix_low : 1 ≤ p
  pub prefix_high : p ≤ 32
  pub ip_read : parsers.from_string (take slash cidr) ≡ some ip
  pub mask_made : mask ≡ address_of_word (mask_word p)

module _ (parsers : Parsers) where
  prefix_found :
      (cidr : Text) (ip mask : IpAddress) (slash : ℕ) (z : ℤ)
      → parse_tunnel_address parsers cidr ≡ some (record { ip = ip; mask = mask })
      → index_of b'/' cidr ≡ some slash
      → parsers.to_int (drop (slash + 1) cidr) ≡ z
      → (p : ℕ) × IsParsed parsers cidr ip mask slash p
  unfolding parse_tunnel_address valid_prefix
  prefix_found cidr ip mask slash (negsuc n) e at read = absurd (ground arith)
  prefix_found cidr ip mask slash (pos n) e at read = (n, ground arith)

  parse-eq-none :
      (cidr : Text) → index_of b'/' cidr ≡ none → parse_tunnel_address parsers cidr ≡ none
  unfolding parse_tunnel_address
  parse-eq-none cidr e = ground arith

  -- A tunnel address that parses has a '/', an address before it and a prefix length p from 1 to
  -- 32 behind it, and its mask is the number of p ones followed by 32 - p zeros.
  pub parse_tunnel_address_mask :
      (cidr : Text) (ip mask : IpAddress)
      → parse_tunnel_address parsers cidr ≡ some (record { ip = ip; mask = mask })
      → (slash p : ℕ) × IsParsed parsers cidr ip mask slash p
        × (word_of_address mask + 2 ^ (32 - p) ≡ 2 ^ 32)
  parse_tunnel_address_mask cidr ip mask e = elim (Option-cases (index_of b'/' cidr)) [
    | inl no_slash ↦ absurd (ground (arith, parse-eq-none cidr))
    | inr (slash, at) ↦
        let (p, parsed) = prefix_found cidr ip mask slash _ e at refl in
        (slash, p, parsed, masked p parsed.prefix_low parsed.prefix_high parsed.mask_made)
  ]
    where
      masked :
          (p : ℕ)
          → 1 ≤ p
          → p ≤ 32
          → mask ≡ address_of_word (mask_word p)
          → word_of_address mask + 2 ^ (32 - p) ≡ 2 ^ 32
      masked p lo hi made =
          rw (made, word_of_address-address_of_word (mask_word p) (mask_word-lt p lo hi))
            (mask_word_sum p lo hi)
