-- ===== src/Tray/Linux.antt =====
-- The state of the Linux tray and what it shows of it: crates/vpnmgr-tray/src/linux.rs.
pub mod Menu
pub mod Worker
pub mod Session
use vpnmgr.Common.{
  ℕ, Bool, true, false, not, ◌&&◌, ◌||◌, Option, none, some, is_some, List, [], ◌∷◌, ◌++◌, map,
  take, if◌then◌else◌,
}
use vpnmgr.Common.Text.{Text, text, print_nat}
use vpnmgr.Common.Float.{Float, of_nat}
use vpnmgr.Core.Net.{SocketAddr}
use vpnmgr.Core.Wgconf.{AddrText}
use vpnmgr.Core.Render.{show_endpoint}
use vpnmgr.Daemon.Ranked.{RankedServer, ServerSummary, StatusReport}
use vpnmgr.Tray.Format.{measured_ago, rate, truncate, human_bytes}
use vpnmgr.Tray.Client.{quick_connect_limit}

-- The channel of actions stands with the worker.
pub record VpnTray (F : Type 0) : Type 0 where
  pub status : Option (StatusReport F)
  pub ranking : List (RankedServer F)
  pub servers : List ServerSummary
  pub error : Option Text
  pub unreachable : Option Text
  pub busy : Option Text

pub data Status : Type 0 where
  needs_attention active : Status

pub record ToolTip : Type 0 where
  pub icon_name : Text
  pub title : Text
  pub description : Text

abbrev or_question : Option Text → Text
or_question none = text "?"
or_question (some t) = t

unfoldable pub handshake_text : Option ℕ → Text
handshake_text none = text "never"
handshake_text (some secs) = print_nat secs ++ text "s ago"

-- A newline between two texts that are not empty.
below : Text → Option Text → Text
below description none = description
below [] (some baseline) = baseline
below (c ∷ cs) (some baseline) = (c ∷ cs) ++ (b'\n' ∷ baseline)

endpoint_text : AddrText → Option SocketAddr → Text
endpoint_text at none = text "no endpoint"
endpoint_text at (some e) = show_endpoint at e

module _ {F : Type 0} where
  -- `VpnTray::new`.
  abbrev pub new_tray : VpnTray F
  new_tray = record {
    status = none;
    ranking = [];
    servers = [];
    error = none;
    unreachable = none;
    busy = none;
  }

  unfoldable pub says_connected : Option (StatusReport F) → Bool
  says_connected none = false
  says_connected (some s) = s.connected

  unfoldable pub connected : VpnTray F → Bool
  unfolding says_connected
  connected t = says_connected t.status

  wants_attention : Option (StatusReport F) → Bool
  wants_attention none = false
  wants_attention (some s) = is_some s.pending_switch || (s.connected && not s.healthy)

  attention_in : VpnTray F → Bool
  unfolding wants_attention
  attention_in t = wants_attention t.status

  unfoldable pub tray_status : VpnTray F → Status
  unfolding attention_in
  tray_status t = if attention_in t then needs_attention else active

  headline_of : Option (StatusReport F) → Text
  headline_of none = text "vpnmgrd is not reachable"
  headline_of (some s) =
      if not s.connected
      then text "Disconnected"
      else or_question s.server ++ (text " — " ++ or_question s.location)

  unfoldable pub headline : VpnTray F → Text
  unfolding headline_of
  headline t = headline_of t.status

  icon_of : Option (StatusReport F) → Text
  icon_of none = text "network-offline"
  icon_of (some s) =
      if not s.connected
      then text "network-offline"
      else if not s.healthy
      then text "network-error"
      else text "network-vpn"

  unfoldable pub icon_name : VpnTray F → Text
  unfolding icon_of
  icon_name t = icon_of t.status

module _ (F : Type 0) ⦃fl : Float F⦄ where
  load_text : ℕ → ℕ → Text
  unfolding rate
  load_text load headroom =
      print_nat load ++ (text "% load, " ++ (rate {F = F} (of_nat headroom) ++ text " free)"))

  pub server_entry : ServerSummary → Text × Text
  unfolding load_text truncate
  server_entry s = (
    s.name,
    s.name
        ++ (text " — "
            ++ (truncate s.location 24 ++ (text " (" ++ load_text s.load s.headroom_mbps))),
  )

module _ {F : Type 0} ⦃fl : Float F⦄ where
  -- A rate stands only with its age.
  measured_text : Option F → Option ℕ → Text
  unfolding measured_ago
  measured_text (some mbps) (some age) =
      text ", " ++ (fl.format 0 mbps ++ (text " Mbps " ++ measured_ago age))
  measured_text _ _ = []

  pub ranked_entry : RankedServer F → Text × Text
  unfolding measured_text load_text truncate
  ranked_entry s = (
    s.name,
    s.name
        ++ (text " — "
            ++ (truncate s.location 22
                ++ (text " ("
                    ++ (fl.format 0 s.rtt_ms
                        ++ (text "ms"
                            ++ (measured_text s.mbps s.mbps_age_secs
                                ++ (text ", " ++ load_text F s.load s.headroom_mbps))))))),
  )

  -- The measured servers, or before there are any, the listed ones.
  pub entries_of : List (RankedServer F) → List ServerSummary → List (Text × Text)
  unfolding ranked_entry server_entry
  entries_of [] servers = map (server_entry F) (take quick_connect_limit servers)
  entries_of (r ∷ rs) servers = map ranked_entry (take quick_connect_limit (r ∷ rs))

  -- The name of each server to choose, and its label.
  unfoldable pub quick_connect_entries : VpnTray F → List (Text × Text)
  unfolding entries_of
  quick_connect_entries t = entries_of t.ranking t.servers

  baseline_of : Option F → Option ℕ → Option Text
  unfolding rate measured_ago
  baseline_of none age = none
  baseline_of (some mbps) none = some (text "without VPN: " ++ rate mbps)
  baseline_of (some mbps) (some age) =
      some (text "without VPN: " ++ (rate mbps ++ (text " (" ++ (measured_ago age ++ text ")"))))

  baseline_in : Option (StatusReport F) → Option Text
  unfolding baseline_of
  baseline_in none = none
  baseline_in (some s) = baseline_of s.baseline_mbps s.baseline_age_secs

  unfoldable pub baseline_line : VpnTray F → Option Text
  unfolding baseline_in
  baseline_line t = baseline_in t.status

  description_of : AddrText → Option (StatusReport F) → Text
  unfolding endpoint_text handshake_text human_bytes
  description_of at none = []
  description_of at (some s) =
      if s.connected
      then endpoint_text at s.endpoint
        ++ (text "\nhandshake "
            ++ (handshake_text s.last_handshake_secs
                ++ (b'\n' ∷ human_bytes F s.tx_bytes
                    ++ (text " up, " ++ (human_bytes F s.rx_bytes ++ text " down")))))
      else []

  unfoldable pub tool_tip : AddrText → VpnTray F → ToolTip
  unfolding icon_name headline description_of below baseline_line
  tool_tip at t = record {
    icon_name = icon_name t;
    title = headline t;
    description = below (description_of at t.status) (baseline_line t);
  }
