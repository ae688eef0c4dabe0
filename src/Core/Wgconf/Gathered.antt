-- ===== src/Core/Wgconf/Gathered.antt =====
-- Reading a rendered file gathers one section of each kind, with the values that were written.
use vpnmgr.Common.{ℕ, ◌+◌, ◌≡◌, refl, ◌∙◌, Option, none, some, List, [], map}
use vpnmgr.Common.Text.{Text, text, print_nat, is_whitespace}
use vpnmgr.Common.Scan.{join, lines}
use vpnmgr.Core.Net.{SocketAddr}
use vpnmgr.Core.Config.{ClientConfig}
use vpnmgr.Core.Key.{Base64}
use vpnmgr.Core.Render.{
  line, line_if_some, line_if_any, show_endpoint, dns_items, interface_part, peer_part, to_conf,
}
use vpnmgr.Core.Wgconf.{AddrText, show_cidr, ok, Section, set}
use vpnmgr.Core.Wgconf.Clean.{IsItem-IsValue, print_nat-IsItem}
use vpnmgr.Core.Wgconf.Parse.{read_lines, start}
use vpnmgr.Core.Wgconf.Written.{
  Clean, add_some, add_any, after_some, after_any, inside, inside_peer, interface_line,
  interface_line_if_some, interface_line_if_any, peer_line, peer_line_if_some, enter_interface,
  enter_peer, interface_section, peer_section, IsWritable,
}

number-Clean : (o : Option ℕ) → Clean print_nat o
number-Clean none = tt
number-Clean (some n) = IsItem-IsValue (print_nat n) (print_nat-IsItem n)

module _ (b : Base64) (at : AddrText) (c : ClientConfig) (endpoint : SocketAddr)
    (w : IsWritable b at c endpoint) where
  abbrev items : List Text
  items = dns_items b at c

  abbrev addresses : Text
  addresses = join (text ", ") (map (show_cidr at) c.addresses)

  abbrev allowed : Text
  allowed = join (text ", ") (map (show_cidr at) c.allowed_ips)

  read_interface :
      (rest : Text)
      → read_lines 1 (lines (interface_part b at c rest)) (inside [])
        ≡ read_lines
            (after_some c.mtu (after_any items 3))
            (lines rest)
            (inside (interface_section b at c 4 (after_any items 3 + 1)))
  unfolding interface_part is_whitespace
  read_interface rest =
      let with_mtu = line_if_some print_nat (text "MTU = ") c.mtu rest in
      let with_dns = line_if_any (text "DNS = ") items with_mtu in
      let with_key = line (text "PrivateKey = ") (b.encode c.private_key) with_dns in
      let s1 = set (text "Address") addresses 2 [] in
      let s2 = set (text "PrivateKey") (b.encode c.private_key) 3 s1 in
      let s3 = add_any (text "DNS") items 4 s2 in
      interface_line (text "Address") refl with_key 1 addresses [] w.addresses
      ∙ (interface_line (text "PrivateKey") refl with_dns 2 (b.encode c.private_key) s1
            w.private_key
          ∙ (interface_line_if_any (text "DNS") refl with_mtu 3 items s2 w.dns
              ∙ interface_line_if_some (text "MTU") refl rest (after_any items 3) print_nat c.mtu s3
                  (number-Clean c.mtu)))

  read_peer :
      (n : ℕ) (i : Section)
      → let m = after_some c.preshared_key (n + 1) in
        read_lines n (lines (peer_part b at c endpoint)) (inside_peer i [])
        ≡ ok (
            inside_peer i (
              peer_section b at c (n + 1) (n + 1 + 1) (m + 1) (m + 1 + 1) (m + 1 + 1 + 1) endpoint))
  unfolding peer_part is_whitespace
  read_peer n i =
      let m = after_some c.preshared_key (n + 1) in
      let with_alive =
        line_if_some print_nat (text "PersistentKeepalive = ") c.persistent_keepalive [] in
      let with_allowed = line (text "AllowedIPs = ") allowed with_alive in
      let with_endpoint = line (text "Endpoint = ") (show_endpoint at endpoint) with_allowed in
      let with_psk = line_if_some b.encode (text "PresharedKey = ") c.preshared_key with_endpoint in
      let s1 = set (text "PublicKey") (b.encode c.peer_public_key) (n + 1) [] in
      let s2 = add_some b.encode (text "PresharedKey") c.preshared_key (n + 1 + 1) s1 in
      let s3 = set (text "Endpoint") (show_endpoint at endpoint) (m + 1) s2 in
      let s4 = set (text "AllowedIPs") allowed (m + 1 + 1) s3 in
      peer_line (text "PublicKey") refl with_psk n (b.encode c.peer_public_key) i [] w.public_key
      ∙ (peer_line_if_some (text "PresharedKey") refl with_endpoint (n + 1) b.encode c.preshared_key
            i s1 w.preshared
          ∙ (peer_line (text "Endpoint") refl with_allowed m (show_endpoint at endpoint) i s2
                w.endpoint_text
              ∙ (peer_line (text "AllowedIPs") refl with_alive (m + 1) allowed i s3 w.allowed
                  ∙ (peer_line_if_some (text "PersistentKeepalive") refl [] (m + 1 + 1) print_nat
                        c.persistent_keepalive i s4 (number-Clean c.persistent_keepalive)
                      ∙ (unfold read_lines lines in refl)))))

  -- The reader at the end of the file.
  pub read_lines-to_conf :
      let mtu_after = after_any (dns_items b at c) 3 in
      let headers_after = after_some c.mtu mtu_after + 1 + 1 in
      let psk_after = after_some c.preshared_key (headers_after + 1) in
      read_lines 0 (lines (to_conf b at c endpoint)) start
      ≡ ok (
          inside_peer (interface_section b at c 4 (mtu_after + 1)) (
            peer_section b at c
              (headers_after + 1)
              (headers_after + 1 + 1)
              (psk_after + 1)
              (psk_after + 1 + 1)
              (psk_after + 1 + 1 + 1)
              endpoint))
  unfolding to_conf
  read_lines-to_conf =
      let mtu_after = after_any items 3 in
      let n = after_some c.mtu mtu_after in
      let i = interface_section b at c 4 (mtu_after + 1) in
      let peer = peer_part b at c endpoint in
      let rest = line [] [] (line (text "[Peer]") [] peer) in
      enter_interface (interface_part b at c rest)
      ∙ (read_interface rest ∙ (enter_peer peer n i ∙ read_peer (n + 1 + 1) i))
