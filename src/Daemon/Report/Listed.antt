-- ===== src/Daemon/Report/Listed.antt =====
-- Which servers a listing shows, and in what order.
use vpnmgr.Common.{◌≡◌, true}
use vpnmgr.Common.Text.{Text}
use vpnmgr.Core.Filter.{Ruleset, accepts}
use vpnmgr.Daemon.Ranked.{ServerSummary}

-- Healthy, and let through by the rules.
abbrev pub Shown : Ruleset → ServerSummary → Type 0
Shown r s = (s.healthy ≡ true) × (accepts r s.name s.country_code s.load ≡ true)
