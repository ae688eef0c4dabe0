-- ===== src/Tray/Windows.antt =====
-- What the Windows tray has seen of the daemon and shows of it: crates/vpnmgr-tray/src/windows.rs.
pub mod Loop
pub mod Menu
use vpnmgr.Common.{
  ℕ, Bool, true, false, not, Option, none, some, List, [], ◌∷◌, ◌++◌, map, take, if◌then◌else◌,
}
use vpnmgr.Common.Text.{Text, text, print_nat}
use vpnmgr.Common.Float.{Float, of_nat}
use vpnmgr.Daemon.Ranked.{RankedServer, ServerSummary, StatusReport}
use vpnmgr.Tray.Format.{measured_ago, rate, truncate, human_bytes}
use vpnmgr.Tray.Client.{quick_connect_limit}

pub record Snapshot (F : Type 0) : Type 0 where
  pub status : Option (StatusReport F)
  pub ranking : List (RankedServer F)
  pub servers : List ServerSummary
  pub unreachable : Option Text
  pub busy : Option Text

abbrev or_question : Option Text → Text
or_question none = text "?"
or_question (some t) = t

abbrev on_new_line : Text → Text
on_new_line t = b'\n' ∷ t

module _ {F : Type 0} where
  says_connected : Option (StatusReport F) → Bool
  says_connected none = false
  says_connected (some s) = s.connected

  unfoldable pub connected : Snapshot F → Bool
  unfolding says_connected
  connected s = says_connected s.status

  headline_of : Option (StatusReport F) → Text
  headline_of none = text "vpnmgrd is not reachable"
  headline_of (some s) =
      if not s.connected
      then text "Disconnected"
      else or_question s.server ++ (text " — " ++ or_question s.location)

  unfoldable pub headline : Snapshot F → Text
  unfolding headline_of
  headline s = headline_of s.status

  colour_of : Option (StatusReport F) → ℕ × ℕ × ℕ
  colour_of none = (0x75, 0x75, 0x75)
  colour_of (some s) =
      if not s.connected
      then (0x75, 0x75, 0x75)
      else if not s.healthy
      then (0xd3, 0x2f, 0x2f)
      else (0x2e, 0x7d, 0x32)

  -- Red, green and blue.
  unfoldable pub state_colour : Snapshot F → ℕ × ℕ × ℕ
  unfolding colour_of
  state_colour s = colour_of s.status

handshake_line : Option ℕ → Text
handshake_line none = []
handshake_line (some age) = text "\nhandshake " ++ (print_nat age ++ text "s ago")

busy_line : Option Text → Text
busy_line none = []
busy_line (some busy) = on_new_line (busy ++ text "…")

baseline_note : Option Text → Text
baseline_note none = []
baseline_note (some baseline) = on_new_line baseline

module _ (F : Type 0) ⦃fl : Float F⦄ where
  load_text : ℕ → ℕ → Text
  unfolding rate
  load_text load headroom =
      print_nat load ++ (text "% load, " ++ (rate {F = F} (of_nat headroom) ++ text " free)"))

  server_entry : ServerSummary → Text × Text
  unfolding load_text truncate
  server_entry s = (
    s.name,
    s.name
        ++ (text " — "
            ++ (truncate s.location 24 ++ (text " (" ++ load_text s.load s.headroom_mbps))),
  )

module _ {F : Type 0} ⦃fl : Float F⦄ where
  baseline_of : Option F → Option ℕ → Option Text
  unfolding rate measured_ago
  baseline_of none age = none
  baseline_of (some mbps) none = some (text "without VPN: " ++ rate mbps)
  baseline_of (some mbps) (some age) =
      some (text "without VPN: " ++ (rate mbps ++ (text " (" ++ (measured_ago age ++ text ")"))))

  baseline_in : Option (StatusReport F) → Option Text
  unfolding baseline_of
  baseline_in none = none
  baseline_in (some s) = baseline_of s.baseline_mbps s.baseline_age_secs

  unfoldable pub baseline_line : Snapshot F → Option Text
  unfolding baseline_in
  baseline_line s = baseline_in s.status

  traffic_lines : Option (StatusReport F) → Text
  unfolding human_bytes handshake_line
  traffic_lines none = []
  traffic_lines (some s) =
      if s.connected
      then on_new_line
          (human_bytes F s.tx_bytes ++ (text " up, " ++ (human_bytes F s.rx_bytes ++ text " down")))
        ++ handshake_line s.last_handshake_secs
      else []

  unfoldable pub tooltip : Snapshot F → Text
  unfolding headline traffic_lines baseline_line baseline_note busy_line
  tooltip s =
      headline s
      ++ (traffic_lines s.status ++ (baseline_note (baseline_line s) ++ busy_line s.busy))

  measured_text : Option F → Option ℕ → Text
  unfolding rate measured_ago
  measured_text (some mbps) (some age) = text ", " ++ (rate mbps ++ (text " " ++ measured_ago age))
  measured_text _ _ = []

  ranked_entry : RankedServer F → Text × Text
  unfolding measured_text load_text truncate
  ranked_entry s = (
    s.name,
    s.name
        ++ (text " — "
            ++ (truncate s.location 22
                ++ (text " ("
                    ++ (fl.format 0 s.rtt_ms
                        ++ (text "ms"
                            ++ (measured_text s.mbps s.mbps_age_secs
                                ++ (text ", " ++ load_text F s.load s.headroom_mbps))))))),
  )

  entries_of : List (RankedServer F) → List ServerSummary → List (Text × Text)
  unfolding ranked_entry server_entry
  entries_of [] servers = map (server_entry F) (take quick_connect_limit servers)
  entries_of (r ∷ rs) servers = map ranked_entry (take quick_connect_limit (r ∷ rs))

  unfoldable pub quick_connect_entries : Snapshot F → List (Text × Text)
  unfolding entries_of
  quick_connect_entries s = entries_of s.ranking s.servers
