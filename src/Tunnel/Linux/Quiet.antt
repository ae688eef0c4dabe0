-- ===== src/Tunnel/Linux/Quiet.antt =====
-- Which calls of the backend leave a route of the main table alone that is not of the tunnel's own ranges.
use vpnmgr.Common.{
  ℕ, zero, suc, ◌≡◌, Bool, true, false, not, ◌||◌, Option, none, some, List, [], ◌∷◌, Bool-cases,
  inl, inr, if◌then◌else◌, is_empty, any, ltb,
}
use vpnmgr.Common.Text.{Text, print_nat}
use vpnmgr.Core.Net.{IpAddr, Cidr}
use vpnmgr.Tunnel.Bypass.{Route, Bypass}
use vpnmgr.Tunnel.Bypass.Installed.{destinations}
use vpnmgr.Tunnel.Bypass.Installed.Calm.{Quiet, Quiet-refl, Quiet_trans, KeepsClear}
use vpnmgr.Tunnel.Killswitch.{Killswitch, allowing}
use vpnmgr.Tunnel.Spec.{TunnelSpec}
use vpnmgr.Tunnel.Spec.Interface.{Outcome, done, failed}
use vpnmgr.Tunnel.Device.{
  Peer, InterfaceConfig, Kernel, LinuxTunnel, Call, marks_lookup, marks_suppress, lookup_args,
  suppress_args, peer_of, config_with,
}
use vpnmgr.Tunnel.Linux.{
  and_then, count_rules, prune_rule, prune_family, prune_all, prune_duplicate_policy_rules, routing,
  dns, configure, retarget, released, engage_over, release_if,
}

module _ {World : Type 0} (k : Kernel World) (s : Route) where
  abbrev pub has : World → Bool
  has w = k.table.route_exists s w

-- Neither the addresses of the configuration nor its allowed ranges are the route's, as `own` tells.
abbrev pub Apart : (Cidr → Bool) → TunnelSpec → Type 0
Apart own spec = (any own spec.client.addresses ≡ false) × (any own spec.client.allowed_ips ≡ false)

-- A world is `Clear` in which no interface of ours carries the route. The interface brings routes to the
-- main table for its addresses and for the ranges of its peers alone (a default range goes to the table
-- of the firewall mark), and takes only those with it; the rest does not touch the table.
pub record IsQuiet {World : Type 0} (k : Kernel World) (s : Route) (own : Cidr → Bool)
    (Clear : World → Type 0) : Type 0 where
  pub table : KeepsClear k.table Clear
  pub open_api : (n : Text) (w : World) → Quiet (has k s) Clear w (k.open_api n w).1
  pub create : (n : Text) (w : World) → Quiet (has k s) Clear w (k.create_interface n w).1
  pub remove : (n : Text) (w : World) → Quiet (has k s) Clear w (k.remove_interface n w).1
  pub configure :
      (c : InterfaceConfig) (w : World)
      → any own c.addresses ≡ false
      → Quiet (has k s) Clear w (k.configure_interface c w).1
  pub peers :
      (n : Text) (p : Peer) (w : World)
      → any own p.allowed_ips ≡ false
      → Quiet (has k s) Clear w (k.configure_peer_routing n (p ∷ []) w).1
  pub dns :
      (n : Text) (servers : List IpAddr) (domains : List Text) (w : World)
      → Quiet (has k s) Clear w (k.configure_dns n servers domains w).1
  pub remove_peer :
      (n : Text) (key : List ℕ) (w : World) → Quiet (has k s) Clear w (k.remove_peer n key w).1
  pub configure_peer :
      (n : Text) (p : Peer) (w : World) → Quiet (has k s) Clear w (k.configure_peer n p w).1
  pub engage : (ks : Killswitch) (w : World) → Quiet (has k s) Clear w (k.engage ks w).1
  pub release : (w : World) → Quiet (has k s) Clear w (k.release w).1
  pub rule :
      (v6 : Bool) (args : List Text) (w : World) → Quiet (has k s) Clear w (k.rule_del v6 args w).1

module _ {World : Type 0} (k : Kernel World) (s : Route) (own : Cidr → Bool)
    (Clear : World → Type 0) (quiet : IsQuiet k s own Clear) where
  abbrev Calm : World → World → Type 0
  Calm w w' = Quiet (has k s) Clear w w'

  Calm-refl : (w : World) → Calm w w
  Calm-refl w = Quiet-refl (has k s) Clear w

  Calm-trans : (u v w : World) → Calm u v → Calm v w → Calm u w
  Calm-trans u v w h g = Quiet_trans (has k s) Clear u v w h g

  and_then-quiet :
      (before : World) (r : Outcome (Unit {0}) × World) (next : Call World)
      → Calm before r.1
      → ((w : World) → Calm w (next w).1)
      → Calm before (and_then r next).1
  and_then-quiet before (failed e, w) next h go = h
  and_then-quiet before (done _, w) next h go = Calm-trans before w (next w).1 h (go w)

  prune_rule-quiet :
      (n : ℕ) (v6 : Bool) (matches : Text → Bool) (args : List Text) (w : World)
      → Calm w (prune_rule k n v6 matches args w)
  unfolding prune_rule
  prune_rule-quiet zero v6 matches args w = Calm-refl w
  prune_rule-quiet (suc n) v6 matches args w =
      let w' = (k.rule_del v6 args w).1 in
      let one = quiet.rule v6 args w in
      elim (Bool-cases (ltb 1 (count_rules k v6 matches w))) [
        | inr few ↦ rw few (Calm-refl w)
        | inl many ↦ elim (Bool-cases (k.rule_del v6 args w).0) [
          | inl deleted ↦
              rw (many, deleted)
                (Calm-trans w w' (prune_rule k n v6 matches args w') one
                  (prune_rule-quiet n v6 matches args w'))
          | inr kept ↦ rw (many, kept) one
        ]
      ]

  prune_all-quiet :
      (v6 : Bool) (matches : Text → Bool) (args : List Text) (w : World)
      → Calm w (prune_all k v6 matches args w)
  unfolding prune_all
  prune_all-quiet v6 matches args w =
      prune_rule-quiet (count_rules k v6 matches w) v6 matches args w

  prune_family-quiet : (v6 : Bool) (fwmark : ℕ) (w : World) → Calm w (prune_family k v6 fwmark w)
  unfolding prune_family
  prune_family-quiet v6 fwmark w =
      let w' =
        prune_all k v6 (marks_lookup (print_nat fwmark)) (lookup_args (print_nat fwmark)) w in
      Calm-trans w w' (prune_all k v6 marks_suppress suppress_args w')
        (prune_all-quiet v6 (marks_lookup (print_nat fwmark)) (lookup_args (print_nat fwmark)) w)
        (prune_all-quiet v6 marks_suppress suppress_args w')

  prune-quiet : (fwmark : ℕ) (w : World) → Calm w (prune_duplicate_policy_rules k fwmark w)
  unfolding prune_duplicate_policy_rules
  prune-quiet fwmark w =
      let w' = prune_family k false fwmark w in
      Calm-trans w w' (prune_family k true fwmark w') (prune_family-quiet false fwmark w)
        (prune_family-quiet true fwmark w')

  routing-quiet :
      (n : Text) (spec : TunnelSpec) (w : World) → Apart own spec → Calm w (routing k n spec w).1
  unfolding routing peer_of
  routing-quiet n spec w apart =
      and_then-quiet w (k.configure_peer_routing n (peer_of spec ∷ []) w) _
        (quiet.peers n (peer_of spec) w apart.1) (λ w'. prune-quiet spec.fwmark w')

  dns-quiet : (n : Text) (spec : TunnelSpec) (w : World) → Calm w (dns k n spec w).1
  unfolding dns
  dns-quiet n spec w =
      elim (Bool-cases
        (not (is_empty spec.client.dns) || not (is_empty spec.client.search_domains))) [
          | inl e ↦ rw e (quiet.dns n spec.client.dns spec.client.search_domains w)
          | inr e ↦ rw e (Calm-refl w)
        ]

  pub configure-quiet :
      (n : Text) (spec : TunnelSpec) (w : World) → Apart own spec → Calm w (configure k n spec w).1
  unfolding configure config_with
  configure-quiet n spec w apart =
      and_then-quiet w (k.configure_interface (config_with n spec (peer_of spec ∷ [])) w) _
        (quiet.configure (config_with n spec (peer_of spec ∷ [])) w apart.0)
        (λ w1.
          and_then-quiet w1 (routing k n spec w1) (dns k n spec) (routing-quiet n spec w1 apart)
            (dns-quiet n spec))

  pub retarget-quiet :
      (spec : TunnelSpec) (t : LinuxTunnel) (w : World)
      → Apart own spec
      → Calm w (retarget k spec t w).2
  unfolding retarget config_with
  retarget-quiet spec t w apart =
      and_then-quiet w (k.remove_peer t.interface spec.client.peer_public_key w) _
        (quiet.remove_peer t.interface spec.client.peer_public_key w)
        (λ w1.
          and_then-quiet w1 (k.configure_interface (config_with t.interface spec []) w1) _
            (quiet.configure (config_with t.interface spec []) w1 apart.0)
            (λ w2.
              and_then-quiet w2 (k.configure_peer t.interface (peer_of spec) w2)
                (routing k t.interface spec) (quiet.configure_peer t.interface (peer_of spec) w2)
                (λ w3. routing-quiet t.interface spec w3 apart)))

  pub release_if-quiet : (ks : Option Killswitch) (w : World) → Calm w (release_if k ks w)
  unfolding release_if
  release_if-quiet none w = Calm-refl w
  release_if-quiet (some ks) w = quiet.release w

  pub released-quiet :
      (ks : Option Killswitch) (w : World) (result : Outcome (Unit {0}))
      → Calm w (and_then (released k ks w) (λ w. (result, w))).1
  unfolding released
  released-quiet none w result = Calm-refl w
  released-quiet (some ks) w result =
      and_then-quiet w (k.release w) (λ w. (result, w)) (quiet.release w) Calm-refl

  pub close_interface-quiet :
      (t : LinuxTunnel) (w : World)
      → Calm w (if t.created then (k.remove_interface t.interface w).1 else w)
  close_interface-quiet t w = elim (Bool-cases t.created) [
    | inl e ↦ rw e (quiet.remove t.interface w)
    | inr e ↦ rw e (Calm-refl w)
  ]

  pub engage_over-quiet :
      (ks : Option Killswitch) (b : Bypass) (w : World) → Calm w (engage_over k ks b w).1
  unfolding engage_over
  engage_over-quiet none b w = Calm-refl w
  engage_over-quiet (some ks) b w = quiet.engage (allowing (destinations b) ks) w
