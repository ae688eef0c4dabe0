-- ===== src/Tunnel/WgShow.antt =====
-- What crates/vpnmgr-tunnel/src/windows.rs makes of the output of `wg show`.
pub mod Fields
use vpnmgr.Common.{
  ℕ, ◌*◌, ◌^◌, Bool, true, false, ◌||◌, Option, none, some, List, [], ◌==◌, first, get_elem?,
  is_empty, if◌then◌else◌, ltb,
}
use vpnmgr.Common.Text.{Text, text, text_eq, trim}
use vpnmgr.Common.Scan.{lines, split_at, parse_below}
use vpnmgr.Core.Net.{SocketAddr}
use vpnmgr.Tunnel.Spec.{TunnelStatus}

-- A field that says nothing is none.
pub present : Option Text → Option Text
present none = none
present (some t) =
    let s = trim t in if is_empty s || text_eq s (text "(none)") then none else some s

pub field_of : ℕ → Option Text → Option Text
unfolding present
field_of n none = none
field_of n (some line) = present (get_elem? (split_at (λ c. c == b'\t') line) n)

-- Field `n` of the first line, as `wg` prints it.
unfoldable pub peer_field : Text → ℕ → Option Text
unfolding field_of
peer_field t n = field_of n (first (lines t))

abbrev bind : {A B : Type 0} → Option A → (A → Option B) → Option B
bind none f = none
bind (some a) f = f a

abbrev or_zero : Option ℕ → ℕ
or_zero none = 0
or_zero (some n) = n

abbrev or_empty : Option Text → Text
or_empty none = []
or_empty (some t) = t

-- Seconds since the epoch, in nanoseconds; the epoch itself is none.
handshake_of : Option ℕ → Option ℕ
handshake_of none = none
handshake_of (some secs) = if ltb 0 secs then some (secs * 1000000000) else none

number : ℕ → Option Text → Option ℕ
number bits t = bind t (parse_below (2 ^ bits))

module _ (parse_endpoint : Text → Option SocketAddr) where
  unfoldable pub status_of :
      Text → Option Text → Option Text → Option Text → Option Text → TunnelStatus
  unfolding handshake_of number peer_field
  status_of interface none endpoints handshakes transfer = record {
    interface = interface;
    up = false;
    endpoint = none;
    last_handshake = none;
    tx_bytes = 0;
    rx_bytes = 0;
    listen_port = 0;
    fwmark = none;
  }
  status_of interface (some port) endpoints handshakes transfer = record {
    interface = interface;
    up = true;
    endpoint = bind (bind endpoints (λ t. peer_field t 1)) parse_endpoint;
    last_handshake = handshake_of (number 64 (bind handshakes (λ t. peer_field t 1)));
    tx_bytes = or_zero (number 64 (peer_field (or_empty transfer) 2));
    rx_bytes = or_zero (number 64 (peer_field (or_empty transfer) 1));
    listen_port = or_zero (parse_below (2 ^ 16) (trim port));
    fwmark = none;
  }
