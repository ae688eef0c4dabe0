-- ===== src/Tunnel/Bypass/Ranges/Clear.antt =====
-- Which private ranges stay on the physical link.
use vpnmgr.Common.{
  ℕ, ◌*◌, ◌+◌, ◌^◌, ◌≡◌, refl, Bool, false, not, ◌&&◌, Option, some, is_some, List, [], ◌∷◌, map,
  any, find, retain, All, leb, ltb, arith,
}
use vpnmgr.Common.Scan.{split_once, parse_below}
use vpnmgr.Common.Text.{Text, text}
use vpnmgr.Core.Net.{IpAddr, v4, v6}
use vpnmgr.Tunnel.Bypass.Ranges.{
  same_prefix, net_contains, prefix_contains, split_contains, cidr_contains, lan_ranges,
}

-- The addresses from `low` up to, and without, `high`.
abbrev pub v4_between : ℕ → ℕ → IpAddr → Bool
v4_between low high (v4 a) = leb low a && ltb a high
v4_between low high (v6 a) = false

abbrev pub v6_between : ℕ → ℕ → IpAddr → Bool
v6_between low high (v6 a) = leb low a && ltb a high
v6_between low high (v4 a) = false

-- The private ranges and the addresses in them: 10.0.0.0 to 10.255.255.255, 172.16.0.0 to
-- 172.31.255.255, 192.168.0.0 to 192.168.255.255, and those from fc00:: to below fe00::.
abbrev pub private_blocks : List (Text × (IpAddr → Bool))
private_blocks =
    (text "10.0.0.0/8", v4_between (10 * 2 ^ 24) (11 * 2 ^ 24))
    ∷ (text "172.16.0.0/12", v4_between (172 * 2 ^ 24 + 16 * 2 ^ 16) (172 * 2 ^ 24 + 32 * 2 ^ 16))
    ∷ (
      text "192.168.0.0/16",
      v4_between (192 * 2 ^ 24 + 168 * 2 ^ 16) (192 * 2 ^ 24 + 169 * 2 ^ 16),
    )
    ∷ (text "fc00::/7", v6_between (252 * 2 ^ 120) (254 * 2 ^ 120))
    ∷ []

-- How `str::parse::<IpAddr>` reads the four networks.
pub record ReadsNetworks (parse_ip : Text → Option IpAddr) : Type 0 where
  pub ten : parse_ip (text "10.0.0.0") ≡ some (v4 (10 * 2 ^ 24))
  pub one_seven_two : parse_ip (text "172.16.0.0") ≡ some (v4 (172 * 2 ^ 24 + 16 * 2 ^ 16))
  pub one_nine_two : parse_ip (text "192.168.0.0") ≡ some (v4 (192 * 2 ^ 24 + 168 * 2 ^ 16))
  pub unique_local : parse_ip (text "fc00::") ≡ some (v6 (252 * 2 ^ 120))

any-find : (p : IpAddr → Bool) (xs : List IpAddr) → is_some (find p xs) ≡ any p xs
any-find p [] = refl
any-find p (x ∷ xs) = ground (arith, any-find p xs)

any-same :
    (p q : IpAddr → Bool) (xs : List IpAddr) → ((a : IpAddr) → p a ≡ q a) → any p xs ≡ any q xs
any-same p q [] h = refl
any-same p q (x ∷ xs) h = ground (arith, h x, any-same p q xs h)

module _ (parse_ip : Text → Option IpAddr) (reads : ReadsNetworks parse_ip) where
  contains-ten :
      (a : IpAddr)
      → cidr_contains parse_ip (text "10.0.0.0/8") a ≡ v4_between (10 * 2 ^ 24) (11 * 2 ^ 24) a
  unfolding cidr_contains split_contains prefix_contains net_contains same_prefix split_once
      parse_below
  contains-ten (v4 a) = rw (reads.ten) (ground arith)
  contains-ten (v6 a) = rw (reads.ten) refl

  contains-one_seven_two :
      (a : IpAddr)
      → cidr_contains parse_ip (text "172.16.0.0/12") a
        ≡ v4_between (172 * 2 ^ 24 + 16 * 2 ^ 16) (172 * 2 ^ 24 + 32 * 2 ^ 16) a
  unfolding cidr_contains split_contains prefix_contains net_contains same_prefix split_once
      parse_below
  contains-one_seven_two (v4 a) = rw (reads.one_seven_two) (ground arith)
  contains-one_seven_two (v6 a) = rw (reads.one_seven_two) refl

  contains-one_nine_two :
      (a : IpAddr)
      → cidr_contains parse_ip (text "192.168.0.0/16") a
        ≡ v4_between (192 * 2 ^ 24 + 168 * 2 ^ 16) (192 * 2 ^ 24 + 169 * 2 ^ 16) a
  unfolding cidr_contains split_contains prefix_contains net_contains same_prefix split_once
      parse_below
  contains-one_nine_two (v4 a) = rw (reads.one_nine_two) (ground arith)
  contains-one_nine_two (v6 a) = rw (reads.one_nine_two) refl

  contains-unique_local :
      (a : IpAddr)
      → cidr_contains parse_ip (text "fc00::/7") a ≡ v6_between (252 * 2 ^ 120) (254 * 2 ^ 120) a
  unfolding cidr_contains split_contains prefix_contains net_contains same_prefix split_once
      parse_below
  contains-unique_local (v6 a) = rw (reads.unique_local) (ground arith)
  contains-unique_local (v4 a) = rw (reads.unique_local) refl

  retain-blocks :
      (addresses : List IpAddr) (blocks : List (Text × (IpAddr → Bool)))
      → All (λ b. (a : IpAddr) → cidr_contains parse_ip b.0 a ≡ b.1 a) blocks
      → retain
          (λ range. not (is_some (find (cidr_contains parse_ip range) addresses)))
          (map (λ b. b.0) blocks)
        ≡ map (λ b. b.0) (retain (λ b. not (any b.1 addresses)) blocks)
  retain-blocks addresses [] h = refl
  retain-blocks addresses ((range, holds) ∷ blocks) h = ground (
    arith,
    any-find (cidr_contains parse_ip range) addresses,
    any-same (cidr_contains parse_ip range) holds addresses h.0,
    retain-blocks addresses blocks h.1,
  )

  -- The ranges kept on the physical link are, in their order, the private blocks in which no address of
  -- the tunnel lies, where the four networks are read as they are written.
  pub lan_ranges-clear :
      (addresses : List IpAddr)
      → lan_ranges parse_ip addresses
        ≡ map (λ b. b.0) (retain (λ b. not (any b.1 addresses)) private_blocks)
  unfolding lan_ranges
  lan_ranges-clear addresses =
      retain-blocks addresses private_blocks (
        contains-ten,
        (contains-one_seven_two, (contains-one_nine_two, (contains-unique_local, tt))),
      )
