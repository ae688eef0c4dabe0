-- ===== src/Core/Wgconf/Parse.antt =====
-- `ClientConfig::parse`: the lines into sections, and the sections into a client configuration.
use vpnmgr.Common.{
  ℕ, ◌+◌, ◌^◌, Bool, Option, none, some, List, [], ◌∷◌, ◌++◌, ◌==◌, length, if◌then◌else◌, is_empty,
  any,
}
use vpnmgr.Common.Text.{Text, text, text_eq, trim, lowercase}
use vpnmgr.Common.Scan.{split_at, split_once, lines, parse_below}
use vpnmgr.Core.Net.{IpAddr, v4, v6, Cidr, is_default_route}
use vpnmgr.Core.Key.{Base64, KeyResult, valid, invalid, from_base64}
use vpnmgr.Core.Config.{ClientConfig}
use vpnmgr.Core.Wgconf.{
  AddrText, unknown_section, not_key_value, before_sections, no_peer, many_peers, missing, bad_key,
  bad_entry, bad_value, Parsed, ok, bad, ◌>>=◌, ok_or, parse_cidr, Section, set, get, get_all,
  Current, nowhere, in_interface, in_peer, Reader, set_last, strip_comment, section_name,
}

-- A header, by its name in lower case.
enter : ℕ → Text → Reader → Parsed Reader
enter lineno name r =
    if text_eq name (text "interface")
    then ok (record r { current = in_interface })
    else if text_eq name (text "peer")
    then ok (record r { peers = r.peers ++ [] ∷ []; current = in_peer })
    else bad (unknown_section lineno name)

-- A setting, in the section that is current.
unfoldable pub assign : Current → ℕ → Text → Text → Reader → Parsed Reader
assign nowhere lineno key value r = bad (before_sections lineno key)
assign in_interface lineno key value r =
    ok (record r { interface = set key value lineno r.interface })
assign in_peer lineno key value r = ok (record r { peers = set_last key value lineno r.peers })

setting : ℕ → Option (Text × Text) → Reader → Parsed Reader
unfolding assign
setting lineno none r = bad (not_key_value lineno)
setting lineno (some (key, value)) r = assign r.current lineno (trim key) (trim value) r

header_or_setting : ℕ → Text → Option Text → Reader → Parsed Reader
unfolding enter setting
header_or_setting lineno line (some name) r = enter lineno (lowercase (trim name)) r
header_or_setting lineno line none r = setting lineno (split_once (λ c. c == b'=') line) r

unfoldable pub read_line : ℕ → Text → Reader → Parsed Reader
unfolding header_or_setting
read_line lineno raw r =
    let line = trim (strip_comment raw) in
    if is_empty line then ok r else header_or_setting lineno line (section_name line) r

-- The number is that of the line before, so the first line is number one.
unfoldable pub read_lines : ℕ → List Text → Reader → Parsed Reader
unfolding read_line
read_lines n [] r = ok r
read_lines n (l ∷ ls) r = read_line (n + 1) l r >>= λ r'. read_lines (n + 1) ls r'

abbrev pub start : Reader
start = record { interface = []; peers = []; current = nowhere }

-- Exactly one [Peer] section.
unfoldable pub the_peer : List Section → Parsed Section
the_peer [] = bad no_peer
the_peer (p ∷ []) = ok p
the_peer (p ∷ q ∷ rest) = bad (many_peers (length (p ∷ q ∷ rest)))

unfoldable pub key_at : ℕ → Text → KeyResult → Parsed (List ℕ)
key_at lineno display (valid k) = ok k
key_at lineno display (invalid e) = bad (bad_key lineno display e)

unfoldable pub key_of : Base64 → Text → Text × ℕ → Parsed (List ℕ)
unfolding key_at
key_of b display (raw, lineno) = key_at lineno display (from_base64 b raw)

unfoldable pub required_key : Base64 → Text → Text → Section → Parsed (List ℕ)
unfolding key_of
required_key b key display s = ok_or (get key s) (missing display) >>= key_of b display

unfoldable pub optional_key_of : Base64 → Text → Option (Text × ℕ) → Parsed (Option (List ℕ))
unfolding key_of
optional_key_of b display none = ok none
optional_key_of b display (some at) = key_of b display at >>= λ k. ok (some k)

unfoldable pub optional_key : Base64 → Text → Text → Section → Parsed (Option (List ℕ))
unfolding optional_key_of
optional_key b key display s = optional_key_of b display (get key s)

module _ {A : Type 0} (parse : Text → Option A) where
  -- The entries between the commas; an empty one is passed over.
  unfoldable pub parse_items : ℕ → Text → List Text → Parsed (List A)
  parse_items lineno display [] = ok []
  parse_items lineno display (raw ∷ rest) =
      let item = trim raw in
      let others = parse_items lineno display rest in
      if is_empty item
      then others
      else ok_or (parse item) (bad_entry lineno display item) >>= λ a.
          others >>= λ out. ok (a ∷ out)

  unfoldable pub parse_values : Text → List (Text × ℕ) → Parsed (List A)
  unfolding parse_items
  parse_values display [] = ok []
  parse_values display ((value, lineno) ∷ rest) =
      parse_items lineno display (split_at (λ c. c == b',') value) >>= λ xs.
      parse_values display rest >>= λ ys. ok (xs ++ ys)

  unfoldable pub parse_list : Text → Text → Section → Parsed (List A)
  unfolding parse_values
  parse_list key display s = parse_values display (get_all key s)

  unfoldable pub scalar_of : Text → Option (Text × ℕ) → Parsed (Option A)
  scalar_of display none = ok none
  scalar_of display (some (value, lineno)) =
      ok_or (parse value) (bad_value lineno display value) >>= λ a. ok (some a)

  unfoldable pub parse_scalar : Text → Text → Section → Parsed (Option A)
  unfolding scalar_of
  parse_scalar key display s = scalar_of display (get key s)

-- Name servers and search domains, in the order in which each stands.
unfoldable pub sort_one : Option IpAddr → Text → List IpAddr × List Text → List IpAddr × List Text
sort_one (some ip) item (ips, domains) = (ip ∷ ips, domains)
sort_one none item (ips, domains) = (ips, item ∷ domains)

unfoldable pub sort_items : (Text → Option IpAddr) → List Text → List IpAddr × List Text
unfolding sort_one
sort_items parse_ip [] = ([], [])
sort_items parse_ip (raw ∷ rest) =
    let item = trim raw in
    let others = sort_items parse_ip rest in
    if is_empty item then others else sort_one (parse_ip item) item others

unfoldable pub dns_entries : (Text → Option IpAddr) → List (Text × ℕ) → List IpAddr × List Text
unfolding sort_items
dns_entries parse_ip [] = ([], [])
dns_entries parse_ip ((value, lineno) ∷ rest) =
    let (ips, domains) = sort_items parse_ip (split_at (λ c. c == b',') value) in
    let (more_ips, more_domains) = dns_entries parse_ip rest in
    (ips ++ more_ips, domains ++ more_domains)

abbrev default_allowed : List Cidr
default_allowed = record { addr = v4 0; prefix = 0 } ∷ record { addr = v6 0; prefix = 0 } ∷ []

unfoldable pub unless_empty : List Cidr → Parsed (List Cidr)
unless_empty [] = bad (missing (text "Address"))
unless_empty (c ∷ cs) = ok (c ∷ cs)

unfoldable pub allowed_or_default : List Cidr → List Cidr
allowed_or_default [] = default_allowed
allowed_or_default (c ∷ cs) = c ∷ cs

module _ (b : Base64) (at : AddrText) where
  -- The checks in the order of the code, so that the first failure is the one reported.
  unfoldable pub of_sections : Section → Section → Parsed ClientConfig
  of_sections interface peer = do
    private ← required_key b (text "privatekey") (text "PrivateKey") interface
    public ← required_key b (text "publickey") (text "PublicKey") peer
    preshared ← optional_key b (text "presharedkey") (text "PresharedKey") peer
    listed ← parse_list (parse_cidr at) (text "address") (text "Address") interface
    addresses ← unless_empty listed
    allowed ← parse_list (parse_cidr at) (text "allowedips") (text "AllowedIPs") peer
    let dns = dns_entries at.parse_ip (get_all (text "dns") interface)
    mtu ← parse_scalar (parse_below (2 ^ 32)) (text "mtu") (text "MTU") interface
    keepalive ←
        parse_scalar (parse_below (2 ^ 16)) (text "persistentkeepalive")
          (text "PersistentKeepalive") peer
    ok (record {
      private_key = private;
      addresses = addresses;
      dns = dns.0;
      search_domains = dns.1;
      mtu = mtu;
      peer_public_key = public;
      preshared_key = preshared;
      allowed_ips = allowed_or_default allowed;
      persistent_keepalive = keepalive;
    })

  unfoldable pub parse : Text → Parsed ClientConfig
  unfolding read_lines the_peer of_sections required_key optional_key parse_list unless_empty
      allowed_or_default dns_entries parse_scalar
  parse t = do
    r ← read_lines 0 (lines t) start
    peer ← the_peer r.peers
    of_sections r.interface peer

-- `ClientConfig::is_full_tunnel`.
unfoldable pub is_full_tunnel : ClientConfig → Bool
is_full_tunnel c = any is_default_route c.allowed_ips
