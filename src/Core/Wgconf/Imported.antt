-- ===== src/Core/Wgconf/Imported.antt =====
-- What every configuration that the importer accepts satisfies.
use vpnmgr.Common.{◌^◌, ◌<◌, ◌≡◌, refl, List, [], ◌∷◌, All, is_empty, false, arith}
use vpnmgr.Common.Text.{Text, text}
use vpnmgr.Common.Scan.{lines, parse_below}
use vpnmgr.Core.Net.{Cidr}
use vpnmgr.Core.Config.{ClientConfig}
use vpnmgr.Core.Key.{Base64}
use vpnmgr.Core.Wgconf.{AddrText, ok, parse_cidr, Section}
use vpnmgr.Core.Wgconf.Parse.{
  read_lines, start, the_peer, required_key, optional_key, parse_list, parse_scalar, unless_empty,
  allowed_or_default, of_sections, parse,
}
use vpnmgr.Core.Wgconf.Usable.{Holds}
use vpnmgr.Core.Wgconf.Outcomes.{
  Gives, Gives-ok, any_ok, bind-Gives, FitsPrefix, IsSized, parse_below-lt, parse_cidr-Fits,
  required_key-IsSized, optional_key-IsSized, parse_list-All, parse_scalar-Holds,
}

pub record IsImported (c : ClientConfig) : Type 0 where
  pub private_key : IsSized c.private_key
  pub public_key : IsSized c.peer_public_key
  pub preshared_key : Holds IsSized c.preshared_key
  pub some_address : is_empty c.addresses ≡ false
  pub addresses : All FitsPrefix c.addresses
  pub mtu : Holds (λ n. n < 2 ^ 32) c.mtu
  pub keepalive : Holds (λ n. n < 2 ^ 16) c.persistent_keepalive
  pub some_allowed : is_empty c.allowed_ips ≡ false
  pub allowed : All FitsPrefix c.allowed_ips

abbrev SomeFit : List Cidr → Type 0
SomeFit cs = (is_empty cs ≡ false) × All FitsPrefix cs

unless_empty-SomeFit : (cs : List Cidr) → All FitsPrefix cs → Gives SomeFit (unless_empty cs)
unfolding unless_empty
unless_empty-SomeFit [] h = tt
unless_empty-SomeFit (c ∷ cs) h = (refl, h)

allowed_or_default-SomeFit : (cs : List Cidr) → All FitsPrefix cs → SomeFit (allowed_or_default cs)
unfolding allowed_or_default
allowed_or_default-SomeFit [] h = (refl, omega arith)
allowed_or_default-SomeFit (c ∷ cs) h = (refl, h)

module _ (b : Base64) (at : AddrText) where
  of_sections-IsImported :
      (interface peer : Section) → Gives IsImported (of_sections b at interface peer)
  unfolding of_sections
  of_sections-IsImported interface peer =
      let private = required_key b (text "privatekey") (text "PrivateKey") interface in
      let public = required_key b (text "publickey") (text "PublicKey") peer in
      let preshared = optional_key b (text "presharedkey") (text "PresharedKey") peer in
      let listed = parse_list (parse_cidr at) (text "address") (text "Address") interface in
      let allowed = parse_list (parse_cidr at) (text "allowedips") (text "AllowedIPs") peer in
      let mtu = parse_scalar (parse_below (2 ^ 32)) (text "mtu") (text "MTU") interface in
      let alive =
        parse_scalar (parse_below (2 ^ 16)) (text "persistentkeepalive")
          (text "PersistentKeepalive") peer in
      let fits = parse_cidr-Fits at in
      bind-Gives IsSized IsImported private _
        (required_key-IsSized b (text "privatekey") (text "PrivateKey") interface)
        (λ k1 private_sized.
          bind-Gives IsSized IsImported public _
            (required_key-IsSized b (text "publickey") (text "PublicKey") peer)
            (λ k2 public_sized.
              bind-Gives (Holds IsSized) IsImported preshared _
                (optional_key-IsSized b (text "presharedkey") (text "PresharedKey") peer)
                (λ k3 psk_sized.
                  bind-Gives (All FitsPrefix) IsImported listed _
                    (parse_list-All (parse_cidr at) FitsPrefix fits (text "address")
                      (text "Address") interface)
                    (λ cs cs_fit.
                      bind-Gives SomeFit IsImported (unless_empty cs) _
                        (unless_empty-SomeFit cs cs_fit)
                        (λ ds ds_fit.
                          bind-Gives (All FitsPrefix) IsImported allowed _
                            (parse_list-All (parse_cidr at) FitsPrefix fits (text "allowedips")
                              (text "AllowedIPs") peer)
                            (λ es es_fit.
                              bind-Gives (Holds (λ n. n < 2 ^ 32)) IsImported mtu _
                                (parse_scalar-Holds (parse_below (2 ^ 32)) (λ n. n < 2 ^ 32)
                                  (parse_below-lt (2 ^ 32)) (text "mtu") (text "MTU") interface)
                                (λ m m_lt.
                                  bind-Gives (Holds (λ n. n < 2 ^ 16)) IsImported alive _
                                    (parse_scalar-Holds (parse_below (2 ^ 16)) (λ n. n < 2 ^ 16)
                                      (parse_below-lt (2 ^ 16)) (text "persistentkeepalive")
                                      (text "PersistentKeepalive") peer)
                                    (λ l l_lt. record {
                                      private_key = private_sized;
                                      public_key = public_sized;
                                      preshared_key = psk_sized;
                                      some_address = ds_fit.0;
                                      addresses = ds_fit.1;
                                      mtu = m_lt;
                                      keepalive = l_lt;
                                      some_allowed = (allowed_or_default-SomeFit es es_fit).0;
                                      allowed = (allowed_or_default-SomeFit es es_fit).1;
                                    }))))))))

  -- Every file that is accepted gives keys of 32 bytes, at least one address and one allowed range,
  -- prefixes no longer than their address, and an MTU and a keepalive that fit their types.
  pub parse-IsImported : (t : Text) (c : ClientConfig) → parse b at t ≡ ok c → IsImported c
  unfolding parse
  parse-IsImported t c h =
      let read = read_lines 0 (lines t) start in
      Gives-ok IsImported (parse b at t) h (
        bind-Gives (λ r. Unit {0}) IsImported read _ (any_ok read)
          (λ r h1.
            bind-Gives (λ p. Unit {0}) IsImported (the_peer r.peers) _ (any_ok (the_peer r.peers))
              (λ peer h2. of_sections-IsImported r.interface peer)))
