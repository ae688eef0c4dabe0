-- ===== src/Core/Render.antt =====
-- crates/vpnmgr-core/src/render.rs: the configuration file for a chosen server.
use vpnmgr.Common.{ℕ, Option, none, some, List, [], ◌∷◌, ◌++◌, map}
use vpnmgr.Common.Text.{Text, text, print_nat}
use vpnmgr.Common.Scan.{join}
use vpnmgr.Core.Net.{IpAddr, v4, v6, SocketAddr}
use vpnmgr.Core.Airvpn.{Server, wg_endpoint}
use vpnmgr.Core.Config.{ClientConfig}
use vpnmgr.Core.Key.{Base64}
use vpnmgr.Core.Wgconf.{AddrText, show_cidr}

-- `SocketAddr`'s `Display`, without the scope of a link-local address.
unfoldable pub show_socket : AddrText → IpAddr → ℕ → Text
show_socket at (v4 a) port = at.show_ip (v4 a) ++ (text ":" ++ print_nat port)
show_socket at (v6 a) port = text "[" ++ (at.show_ip (v6 a) ++ (text "]:" ++ print_nat port))

abbrev pub show_endpoint : AddrText → SocketAddr → Text
show_endpoint at e = show_socket at e.ip e.port

-- `writeln!(out, "{label}{value}")`, in front of what follows.
abbrev pub line : Text → Text → Text → Text
line label value rest = label ++ (value ++ b'\n' ∷ rest)

abbrev pub line_if_some : {A : Type 0} → (A → Text) → Text → Option A → Text → Text
line_if_some show label none rest = rest
line_if_some show label (some a) rest = line label (show a) rest

abbrev pub line_if_any : Text → List Text → Text → Text
line_if_any label [] rest = rest
line_if_any label (t ∷ ts) rest = line label (join (text ", ") (t ∷ ts)) rest

module _ (b : Base64) (at : AddrText) where
  -- Name servers and search domains share a key, in that order.
  abbrev pub dns_items : ClientConfig → List Text
  dns_items c = map at.show_ip c.dns ++ c.search_domains

  unfoldable pub interface_part : ClientConfig → Text → Text
  interface_part c rest =
      line (text "Address = ") (join (text ", ") (map (show_cidr at) c.addresses)) (
        line (text "PrivateKey = ") (b.encode c.private_key) (
          line_if_any (text "DNS = ") (dns_items c)
            (line_if_some print_nat (text "MTU = ") c.mtu rest)))

  unfoldable pub peer_part : ClientConfig → SocketAddr → Text
  peer_part c endpoint = line (text "PublicKey = ") (b.encode c.peer_public_key) (
      line_if_some b.encode (text "PresharedKey = ") c.preshared_key (
        line (text "Endpoint = ") (show_endpoint at endpoint) (
          line (text "AllowedIPs = ") (join (text ", ") (map (show_cidr at) c.allowed_ips))
            (line_if_some print_nat (text "PersistentKeepalive = ") c.persistent_keepalive []))))

  unfoldable pub to_conf : ClientConfig → SocketAddr → Text
  unfolding interface_part peer_part
  to_conf c endpoint =
      line (text "[Interface]") []
        (interface_part c (line [] [] (line (text "[Peer]") [] (peer_part c endpoint))))

-- `for_server`: the entry address of the server that is meant for WireGuard.
unfoldable pub for_server : Base64 → AddrText → ClientConfig → Server → ℕ → Text
unfolding to_conf
for_server b at c server port = to_conf b at c (wg_endpoint server port)
