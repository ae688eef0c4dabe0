-- ===== src/Tunnel/Linux/Tests.antt =====
-- Runs of the Linux tunnel on a kernel whose peers bring routes with them.
use vpnmgr.Common.{
  ◌≡◌, refl, Bool, true, false, Option, none, some, List, [], ◌∷◌, arith, if◌then◌else◌, ltb, any,
  ◌==◌,
}
use vpnmgr.Common.Text.{Text, text}
use vpnmgr.Common.Scan.{lines}
use vpnmgr.Core.Net.{Cidr, v4}
use vpnmgr.Core.Config.{ClientConfig}
use vpnmgr.Tunnel.Bypass.{prefix}
use vpnmgr.Tunnel.Bypass.Installed.{MainTable}
use vpnmgr.Tunnel.Tests.{table, same_route, table-IsTable, lan_route}
use vpnmgr.Tunnel.Spec.{TunnelSpec, spec_for}
use vpnmgr.Tunnel.Spec.Interface.{done, failed}
use vpnmgr.Tunnel.Killswitch.{Killswitch}
use vpnmgr.Tunnel.Device.{Peer, Kernel}
use vpnmgr.Tunnel.Linux.{count_rules, prune_all, linux_backend}
use vpnmgr.Tunnel.Linux.Withdrawn.{linux_backend-Restores}
use vpnmgr.Tunnel.Spec.Restores.{Restores, Operation, session, has-session}
use vpnmgr.Tunnel.Linux.Quiet.{IsQuiet, Apart}
use vpnmgr.Tunnel.Linux.Pruned.{Deletes, prune_all-loop}

abbrev client : ClientConfig
client = record {
  private_key = [];
  addresses = [];
  dns = v4 1 ∷ [];
  search_domains = [];
  mtu = none;
  peer_public_key = [];
  preshared_key = none;
  allowed_ips = [];
  persistent_keepalive = none;
}

abbrev spec : TunnelSpec
spec = spec_for client (record { ip = v4 5; port = 1637 })

module _ {World : Type 0} where
  abbrev kernel_over :
      MainTable World → (Bool → World → Option Text) → (World → Bool × World) → Kernel World
  kernel_over table show del = record {
    table = table;
    open_api = λ interface w. (done tt, w);
    create_interface = λ interface w. (done tt, w);
    remove_interface = λ interface w. (done tt, w);
    configure_interface = λ config w. (failed (text "no such device"), w);
    configure_peer_routing = λ interface peers w. (done tt, w);
    configure_dns = λ interface servers domains w. (done tt, w);
    remove_peer = λ interface key w. (done tt, w);
    configure_peer = λ interface peer w. (done tt, w);
    read_interface = λ interface w. failed (text "no such device");
    engage = λ ks w. (done tt, w);
    release = λ w. (done tt, w);
    rule_show = show;
    rule_del = λ v6 args w. del w;
  }

-- The tunnel's own range would be that of the route to the local network.
abbrev owned : Cidr → Bool
owned c = c.prefix == 16

-- The routes that the first peer brings to the table.
abbrev brought : List Peer → List Text → List Text
brought [] w = w
brought (p ∷ ps) w = if any owned p.allowed_ips then prefix lan_route ∷ w else w

abbrev kernel : Kernel (List Text)
kernel = record (kernel_over table (λ v6 w. none) (λ w. (false, w))) {
  configure_interface = λ config w. (done tt, w);
  configure_peer_routing = λ interface peers w. (done tt, brought peers w);
}

abbrev Anywhere : List Text → Type 0
Anywhere w = Unit {0}

kernel-IsQuiet : IsQuiet kernel lan_route owned Anywhere
kernel-IsQuiet = record {
  table = record { add = λ r w c. c; del = λ r w c. c };
  open_api = λ n w c. (refl, c);
  create = λ n w c. (refl, c);
  remove = λ n w c. (refl, c);
  configure = λ config w apart c. (refl, c);
  peers = λ n p w apart c. (rw apart refl, c);
  dns = λ n servers domains w c. (refl, c);
  remove_peer = λ n key w c. (refl, c);
  configure_peer = λ n p w c. (refl, c);
  engage = λ ks w c. (refl, c);
  release = λ w c. (refl, c);
  rule = λ v6 args w c. (refl, c);
}

-- Two copies of a rule, or one.
abbrev doubled : Kernel Bool
doubled =
    kernel_over
      (record {
        route_exists = λ r w. false;
        sys_add = λ r w. (true, w);
        sys_del = λ r w. (true, w);
      })
      (λ v6 w. some (if w then text "rule\nrule\n" else text "rule\n")) (λ w. (w, false))

doubled-Deletes : Deletes doubled false (λ line. true) []
unfolding count_rules lines
doubled-Deletes true h = refl
doubled-Deletes false h = ground arith

prune_all-loop_example : prune_all doubled false (λ line. true) [] true ≡ (
    if ltb 1 (count_rules doubled false (λ line. true) true)
    then prune_all doubled false (λ line. true) [] false
    else true)
prune_all-loop_example = prune_all-loop doubled false (λ line. true) [] true doubled-Deletes

linux_backend-Restores_example :
    Restores (linux_backend kernel) (λ w. table.route_exists lan_route w) Anywhere (Apart owned)
linux_backend-Restores_example =
    linux_backend-Restores kernel same_route lan_route table-IsTable owned Anywhere kernel-IsQuiet

abbrev strict : Killswitch
strict = record { interface = text "vpnmgr0"; fwmark = 51820; allow_lan = false; bypass = [] }

-- Up with the route to the local network, to another endpoint, down and dropped: the route is gone.
withdrawn :
    let operations = Operation.switch_endpoint spec ∷ Operation.down ∷ [] in
    table.route_exists lan_route
      (session (linux_backend kernel) (lan_route ∷ []) strict spec operations (text "vpnmgr0") [])
    ≡ false
withdrawn =
    has-session (linux_backend kernel) (λ w. table.route_exists lan_route w) Anywhere (Apart owned)
      linux_backend-Restores_example (lan_route ∷ []) strict spec
      (Operation.switch_endpoint spec ∷ Operation.down ∷ []) (text "vpnmgr0") [] (refl, refl)
      ((refl, refl), (tt, tt)) tt
