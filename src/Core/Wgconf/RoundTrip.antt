-- ===== src/Core/Wgconf/RoundTrip.antt =====
-- A configuration that is written for a server is read back.
use vpnmgr.Common.{
  ℕ, ◌+◌, ◌^◌, ◌<◌, ◌≡◌, refl, ap, Option, none, some, List, [], ◌∷◌, ◌++◌, map, All, All-mono,
  All-map, is_empty, false,
}
use mathlib.Core.List.{append-nil}
use mathlib.Core.Path.{subst}
use vpnmgr.Common.Text.{Text, text, text_eq, lower_char, print_nat}
use vpnmgr.Common.Scan.{join, parse_below}
use vpnmgr.Common.Scan.Numbers.{parse_below-print_nat}
use vpnmgr.Core.Net.{IpAddr, SocketAddr, Cidr}
use vpnmgr.Core.Config.{ClientConfig}
use vpnmgr.Core.Key.{Base64}
use vpnmgr.Core.Render.{show_socket, dns_items, to_conf}
use vpnmgr.Core.Wgconf.{AddrText, ok, parse_cidr, show_cidr, Section, set, get, get_all}
use vpnmgr.Core.Wgconf.Parse.{
  required_key, key_of, optional_key, optional_key_of, parse_values, parse_list, parse_scalar,
  scalar_of, unless_empty, allowed_or_default, the_peer, dns_entries, of_sections, parse,
}
use vpnmgr.Core.Wgconf.Written.{
  after_some, after_any, add_some, add_any, interface_section, peer_section, IsWritable, Clean,
}
use vpnmgr.Core.Wgconf.Clean.{IsItem, IsValue, IsItem-IsValue, join-IsValue}
use vpnmgr.Core.Wgconf.Gathered.{read_lines-to_conf}
use vpnmgr.Core.Wgconf.Items.{IsEntry, parse_items-join, sort_items-join}
use vpnmgr.Core.Wgconf.Usable.{
  IsKeyBytes, IsAddress, IsCidr, IsFaithful, Holds, IsDomain, IsUsable, from_base64-encode,
  cidr-IsEntry, show_socket-IsValue,
}

abbrev at_some : {A : Type 0} → (A → Text) → Option A → ℕ → Option (Text × ℕ)
at_some show none n = none
at_some show (some a) n = some (show a, n)

abbrev at_any : List Text → ℕ → List (Text × ℕ)
at_any [] n = []
at_any (t ∷ ts) n = (join (text ", ") (t ∷ ts), n) ∷ []

pair_nil :
    (ips : List IpAddr) (domains : List Text)
    → ◌≡◌ {A = List IpAddr × List Text} (ips ++ [], domains ++ []) (ips, domains)
pair_nil ips domains = rw (append-nil ips, append-nil domains) refl

-- What the keys of the written sections find.
interface_lookups :
    (address key : Text) (items : List Text) (mtu : Option ℕ) (dns_at mtu_at : ℕ)
    → let s = add_some print_nat (text "MTU") mtu mtu_at (
        add_any
          (text "DNS")
          items
          dns_at
          (set (text "PrivateKey") key 3 (set (text "Address") address 2 []))) in
      (get (text "privatekey") s ≡ some (key, 3))
      × (get_all (text "address") s ≡ (address, 2) ∷ [])
      × (get_all (text "dns") s ≡ at_any items dns_at)
      × (get (text "mtu") s ≡ at_some print_nat mtu mtu_at)
unfolding get get_all text_eq lower_char
interface_lookups a k [] none d m = (refl, refl, refl, refl)
interface_lookups a k (t ∷ ts) none d m = (refl, refl, refl, refl)
interface_lookups a k [] (some n) d m = (refl, refl, refl, refl)
interface_lookups a k (t ∷ ts) (some n) d m = (refl, refl, refl, refl)

peer_lookups :
    (encode : List ℕ → Text) (key endpoint allowed : Text) (psk : Option (List ℕ))
    (alive : Option ℕ) (key_at psk_at endpoint_at allowed_at alive_at : ℕ)
    → let s = add_some print_nat (text "PersistentKeepalive") alive alive_at (
        set (text "AllowedIPs") allowed allowed_at (
          set (text "Endpoint") endpoint endpoint_at (
            add_some encode
              (text "PresharedKey")
              psk
              psk_at
              (set (text "PublicKey") key key_at [])))) in
      (get (text "publickey") s ≡ some (key, key_at))
      × (get (text "presharedkey") s ≡ at_some encode psk psk_at)
      × (get_all (text "allowedips") s ≡ (allowed, allowed_at) ∷ [])
      × (get (text "persistentkeepalive") s ≡ at_some print_nat alive alive_at)
unfolding get get_all text_eq lower_char
peer_lookups enc k e a none none n1 n2 n3 n4 n5 = (refl, refl, refl, refl)
peer_lookups enc k e a (some p) none n1 n2 n3 n4 n5 = (refl, refl, refl, refl)
peer_lookups enc k e a none (some n) n1 n2 n3 n4 n5 = (refl, refl, refl, refl)
peer_lookups enc k e a (some p) (some n) n1 n2 n3 n4 n5 = (refl, refl, refl, refl)

parse_scalar-some :
    (bound : ℕ) (key display : Text) (s : Section) (o : Option ℕ) (n : ℕ)
    → get key s ≡ at_some print_nat o n
    → Holds (λ v. v < bound) o
    → parse_scalar (parse_below bound) key display s ≡ ok o
unfolding parse_scalar scalar_of
parse_scalar-some bound key display s none n e h = rw e refl
parse_scalar-some bound key display s (some v) n e h =
    rw (e, scalar_of) (rw (parse_below-print_nat bound v h) refl)

unless_empty-some : (cs : List Cidr) → is_empty cs ≡ false → unless_empty cs ≡ ok cs
unfolding unless_empty
unless_empty-some [] h = cc
unless_empty-some (c ∷ cs) h = refl

allowed_or_default-some : (cs : List Cidr) → is_empty cs ≡ false → allowed_or_default cs ≡ cs
unfolding allowed_or_default
allowed_or_default-some [] h = cc
allowed_or_default-some (c ∷ cs) h = refl

module _ (b : Base64) (at : AddrText) (laws : IsFaithful b at) where
  required_key-encode :
      (key display : Text) (s : Section) (k : List ℕ) (n : ℕ)
      → get key s ≡ some (b.encode k, n)
      → IsKeyBytes k
      → required_key b key display s ≡ ok k
  unfolding required_key key_of
  required_key-encode key display s k n e h = rw e (rw (from_base64-encode b at laws k h) refl)

  optional_key-encode :
      (key display : Text) (s : Section) (o : Option (List ℕ)) (n : ℕ)
      → get key s ≡ at_some b.encode o n
      → Holds IsKeyBytes o
      → optional_key b key display s ≡ ok o
  unfolding optional_key optional_key_of key_of
  optional_key-encode key display s none n e h = rw e refl
  optional_key-encode key display s (some k) n e h =
      rw (e, optional_key_of) (rw (from_base64-encode b at laws k h) refl)

  parse_list-join :
      (key display : Text) (s : Section) (cs : List Cidr) (n : ℕ)
      → get_all key s ≡ (join (text ", ") (map (show_cidr at) cs), n) ∷ []
      → is_empty cs ≡ false
      → All IsCidr cs
      → parse_list (parse_cidr at) key display s ≡ ok cs
  unfolding parse_list parse_values
  parse_list-join key display s [] n e some_c h = cc
  parse_list-join key display s (c ∷ cs) n e some_c h =
      let entries =
        All-mono IsCidr (IsEntry (parse_cidr at) (show_cidr at)) (c ∷ cs) (cidr-IsEntry b at laws)
          h in
      rw (e, parse_values)
        (rw (parse_items-join (parse_cidr at) (show_cidr at) n display c cs entries)
          (ap ok (append-nil (c ∷ cs))))

  list-IsValue :
      (cs : List Cidr)
      → is_empty cs ≡ false
      → All IsCidr cs
      → IsValue (join (text ", ") (map (show_cidr at) cs))
  list-IsValue [] some_c h = cc
  list-IsValue (c ∷ cs) some_c h = join-IsValue (show_cidr at c) (map (show_cidr at) cs) (
      All-map IsItem (show_cidr at) (c ∷ cs) (
        All-mono IsCidr (λ d. IsItem (show_cidr at d)) (c ∷ cs)
          (λ d q. (cidr-IsEntry b at laws d q).item) h))

  items-IsItem :
      (ips : List IpAddr) (domains : List Text)
      → All IsAddress ips
      → All (IsDomain at) domains
      → All IsItem (map at.show_ip ips ++ domains)
  items-IsItem [] domains h k = All-mono (IsDomain at) IsItem domains (λ d q. q.item) k
  items-IsItem (a ∷ ips) domains h k = (laws.show_item a h.0, items-IsItem ips domains h.1 k)

  dns_entries-items :
      (ips : List IpAddr) (domains items : List Text) (n : ℕ)
      → All IsAddress ips
      → All (IsDomain at) domains
      → map at.show_ip ips ++ domains ≡ items
      → dns_entries at.parse_ip (at_any items n) ≡ (ips, domains)
  unfolding dns_entries
  dns_entries-items [] [] [] n h k e = refl
  dns_entries-items [] (d ∷ ds) [] n h k e = cc
  dns_entries-items (a ∷ ips) domains [] n h k e = cc
  dns_entries-items ips domains (t ∷ ts) n h k e =
      let back =
        All-mono IsAddress (λ a. at.parse_ip (at.show_ip a) ≡ some a) ips laws.parse_show h in
      let no_address =
        All-mono (IsDomain at) (λ d. at.parse_ip d ≡ none) domains (λ d q. q.no_address) k in
      let clean : All IsItem (t ∷ ts) = subst (All IsItem) e (items-IsItem ips domains h k) in
      rw (sort_items-join at.parse_ip t ts at.show_ip ips domains clean e back no_address)
        (pair_nil ips domains)

  of_sections-written :
      (c : ClientConfig) (endpoint : SocketAddr)
      (dns_at mtu_at key_at psk_at endpoint_at allowed_at alive_at : ℕ)
      → IsUsable at c
      → of_sections b at
          (interface_section b at c dns_at mtu_at)
          (peer_section b at c key_at psk_at endpoint_at allowed_at alive_at endpoint)
        ≡ ok c
  unfolding of_sections
  of_sections-written c endpoint n1 n2 n3 n4 n5 n6 n7 u =
      let s = interface_section b at c n1 n2 in
      let t = peer_section b at c n3 n4 n5 n6 n7 endpoint in
      let (key_found, address_found, dns_found, mtu_found) =
        interface_lookups (join (text ", ") (map (show_cidr at) c.addresses))
          (b.encode c.private_key) (dns_items b at c) c.mtu n1 n2 in
      let (public_found, psk_found, allowed_found, alive_found) =
        peer_lookups b.encode (b.encode c.peer_public_key)
          (show_socket at endpoint.ip endpoint.port)
          (join (text ", ") (map (show_cidr at) c.allowed_ips)) c.preshared_key
          c.persistent_keepalive n3 n4 n5 n6 n7 in
      rw
        (required_key-encode (text "privatekey") (text "PrivateKey") s c.private_key 3 key_found
          u.private_key)
        (rw
          (required_key-encode (text "publickey") (text "PublicKey") t c.peer_public_key n3
            public_found u.public_key)
          (rw
            (optional_key-encode (text "presharedkey") (text "PresharedKey") t c.preshared_key n4
              psk_found u.preshared_key)
            (rw
              (parse_list-join (text "address") (text "Address") s c.addresses 2 address_found
                u.some_address u.addresses)
              (rw (unless_empty-some c.addresses u.some_address) (
                rw
                  (parse_list-join (text "allowedips") (text "AllowedIPs") t c.allowed_ips n6
                    allowed_found u.some_allowed u.allowed)
                  (rw (dns_found) (
                    rw
                      (dns_entries-items c.dns c.search_domains (dns_items b at c) n1 u.dns
                        u.domains refl)
                      (rw
                        (parse_scalar-some (2 ^ 32) (text "mtu") (text "MTU") s c.mtu n2 mtu_found
                          u.mtu)
                        (rw
                          (parse_scalar-some (2 ^ 16) (text "persistentkeepalive")
                            (text "PersistentKeepalive") t c.persistent_keepalive n7 alive_found
                            u.keepalive)
                          (rw (allowed_or_default-some c.allowed_ips u.some_allowed) refl))))))))))

  secret-Clean : (o : Option (List ℕ)) → Holds IsKeyBytes o → Clean b.encode o
  secret-Clean none h = tt
  secret-Clean (some k) h = IsItem-IsValue (b.encode k) (laws.encode_item k h)

  usable-IsWritable :
      (c : ClientConfig) (endpoint : SocketAddr)
      → IsUsable at c
      → IsAddress endpoint.ip
      → IsWritable b at c endpoint
  usable-IsWritable c endpoint u h = record {
    addresses = list-IsValue c.addresses u.some_address u.addresses;
    private_key =
        IsItem-IsValue (b.encode c.private_key) (laws.encode_item c.private_key u.private_key);
    dns = items-IsItem c.dns c.search_domains u.dns u.domains;
    public_key =
        IsItem-IsValue (b.encode c.peer_public_key)
          (laws.encode_item c.peer_public_key u.public_key);
    preshared = secret-Clean c.preshared_key u.preshared_key;
    endpoint_text = show_socket-IsValue b at laws endpoint.ip endpoint.port h;
    allowed = list-IsValue c.allowed_ips u.some_allowed u.allowed;
  }

  -- A usable client configuration that is rendered for any endpoint is read back as it was: its
  -- keys, addresses, name servers, search domains, MTU, routes and keepalive, in their order.
  pub parse-to_conf :
      (c : ClientConfig) (endpoint : SocketAddr)
      → IsUsable at c
      → IsAddress endpoint.ip
      → parse b at (to_conf b at c endpoint) ≡ ok c
  unfolding parse the_peer
  parse-to_conf c endpoint u h =
      let mtu_after = after_any (dns_items b at c) 3 in
      let headers_after = after_some c.mtu mtu_after + 1 + 1 in
      let psk_after = after_some c.preshared_key (headers_after + 1) in
      rw (read_lines-to_conf b at c endpoint (usable-IsWritable c endpoint u h)) (
        of_sections-written c endpoint 4 (mtu_after + 1) (headers_after + 1) (headers_after + 1 + 1)
          (psk_after + 1) (psk_after + 1 + 1) (psk_after + 1 + 1 + 1) u)
