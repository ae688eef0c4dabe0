-- ===== src/Tunnel/Bypass/Installed.antt =====
-- Installing the planned routes and withdrawing them: `Bypass::install` and `remove` of bypass.rs.
pub mod Restored
pub mod Held
pub mod Calm
use vpnmgr.Common.{Bool, true, false, List, [], ◌∷◌, ◌++◌, map, if◌then◌else◌, is_empty}
use vpnmgr.Common.Text.{Text}
use vpnmgr.Tunnel.Bypass.{Route, Bypass, new_bypass}

-- The main routing table, as the `ip` tool reads and changes it.
pub record MainTable (World : Type 0) : Type 0 where
  pub route_exists : Route → World → Bool
  pub sys_add : Route → World → Bool × World
  pub sys_del : Route → World → Bool × World

module _ {World : Type 0} (t : MainTable World) where
  added : Route → Bypass → Bool × World → Bypass × World
  added r b (true, w) = (record { installed = b.installed ++ r ∷ [] }, w)
  added r b (false, w) = (b, w)

  install_one : Route → Bypass → World → Bypass × World
  unfolding added
  install_one r b w = if t.route_exists r w then (b, w) else added r b (t.sys_add r w)

  unfoldable pub install : List Route → Bypass → World → Bypass × World
  unfolding install_one
  install [] b w = (b, w)
  install (r ∷ rs) b w = let (b', w') = install_one r b w in install rs b' w'

  withdraw : List Route → World → World
  withdraw [] w = w
  withdraw (r ∷ rs) w = withdraw rs (t.sys_del r w).1

  unfoldable pub remove : Bypass → World → Bypass × World
  unfolding withdraw
  remove b w = (new_bypass, withdraw b.installed w)

unfoldable pub destinations : Bypass → List Text
destinations b = map (λ r. r.destination) b.installed
