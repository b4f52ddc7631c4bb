-- ===== src/WireGuard/Address.antt =====
-- parseTunnelAddress (src/WireGuardManager.cpp): "a.b.c.d/prefix" to an address and a mask.
pub mod Mask
use birdnetgo_m5stack_atom_e.Prelude.{
  ℕ, ◌+◌, ◌-◌, ◌/◌, ◌%◌, ◌^◌, Option, none, some, ltb, ◌==◌, ◌||◌, if◌then◌else◌, take, drop,
}
use birdnetgo_m5stack_atom_e.Prelude.Int.{ℤ, pos, negsuc}
use birdnetgo_m5stack_atom_e.Prelude.Text.{Text, index_of}

pub record IpAddress : Type 0 where
  pub octet0 : ℕ
  pub octet1 : ℕ
  pub octet2 : ℕ
  pub octet3 : ℕ

-- Arduino's `String::toInt` and `IPAddress::fromString`, which are not in this repository.
pub record Parsers : Type 0 where
  pub to_int : Text → ℤ
  pub from_string : Text → Option IpAddress

-- `IPAddress(m >> 24, (m >> 16) & 0xFF, (m >> 8) & 0xFF, m & 0xFF)`
unfoldable pub address_of_word : ℕ → IpAddress
address_of_word m = record {
  octet0 = m / 2 ^ 24 % 2 ^ 8;
  octet1 = m / 2 ^ 16 % 2 ^ 8;
  octet2 = m / 2 ^ 8 % 2 ^ 8;
  octet3 = m % 2 ^ 8;
}

-- `~x` on a uint32_t is 2 ^ 32 - 1 - x.
unfoldable pub mask_word : ℕ → ℕ
mask_word prefix = if prefix == 32 then 0xFFFFFFFF else 2 ^ 32 - 1 - (2 ^ (32 - prefix) - 1)

-- `prefix < 1 || prefix > 32` fails.
unfoldable pub valid_prefix : ℤ → Option ℕ
valid_prefix (negsuc n) = none
valid_prefix (pos n) = if ltb n 1 || ltb 32 n then none else some n

module _ (parsers : Parsers) where
  open parsers use {to_int, from_string}

  unfoldable pub parse_tunnel_address : Text → Option (record { ip : IpAddress; mask : IpAddress })
  parse_tunnel_address cidr = elim (index_of b'/' cidr) [
    | none ↦ none
    | some slash ↦ elim (valid_prefix (to_int (drop (slash + 1) cidr))) [
      | none ↦ none
      | some prefix ↦ elim (from_string (take slash cidr)) [
        | none ↦ none
        | some ip ↦ some (record { ip = ip; mask = address_of_word (mask_word prefix) })
      ]
    ]
  ]
