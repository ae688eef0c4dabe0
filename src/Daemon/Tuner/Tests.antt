-- ===== src/Daemon/Tuner/Tests.antt =====
-- Decisions of the tuner on a current server that is silent or slow.
use vpnmgr.Common.{◌≡◌, ◌⊎◌, refl, Option, none, some}
use vpnmgr.Common.Text.{Text, text}
use vpnmgr.Common.Float.{Fixed, fixed}
use vpnmgr.Core.Config.{ask}
use vpnmgr.Core.Tests.{tuning}
use vpnmgr.Daemon.Tuner.{Current, Assessment, target, decide, act}
use vpnmgr.Daemon.Tuner.Justified.{Earns, decide-Earns}
use vpnmgr.Daemon.Tests.{to_alpha}

abbrev silent : Current Fixed
silent = record { name = text "Beta"; rtt_ms = none; score = none }

abbrev slow : Current Fixed
slow = record { name = text "Beta"; rtt_ms = some 200_000; score = some 100 }

abbrev seen : Current Fixed → Option Text → Assessment Fixed
seen c declined = record {
  current = some c;
  best = some to_alpha;
  probed = 2;
  declined_from = declined;
}

decide-Earns_example :
    (c : Current Fixed) × ((seen silent none).current ≡ some c)
    × ((seen silent none).best ≡ some to_alpha)
    × ((c.rtt_ms ≡ none) ⊎ ((r : Fixed) × (c.rtt_ms ≡ some r) × Earns (tuning ask) c to_alpha r))
unfolding decide act target
decide-Earns_example = decide-Earns (seen silent none) (tuning ask) to_alpha refl
