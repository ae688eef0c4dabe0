-- ===== src/Daemon/Env.antt =====
-- The daemon's state, what stands outside it, and the monad of its operations: crates/vpnmgrd/src/state.rs.
-- Times are nanoseconds. Two readings of the clock with no call to the outside between them agree.
use vpnmgr.Common.{ℕ, Bool, true, false, Option, none, some, List, [], ◌∷◌, if◌then◌else◌}
use vpnmgr.Common.Text.{Text, text_eq}
use vpnmgr.Core.Net.{SocketAddr}
use vpnmgr.Core.Airvpn.{ServerList}
use vpnmgr.Core.Config.{Config, ClientConfig, KeyFile}
use vpnmgr.Probe.{Prober, Attempt}
use vpnmgr.Tunnel.Bypass.Plan.{Machine}
use vpnmgr.Tunnel.Killswitch.{Killswitch}
use vpnmgr.Tunnel.Spec.Interface.{Outcome, done, failed, Backend}
use vpnmgr.Daemon.Ranked.{RankedServer, SweepSummary, SpeedSample}

pub record Connection : Type 0 where
  pub server : Text
  pub location : Text
  pub country_code : Text
  pub endpoint : SocketAddr
  pub entry : ℕ

-- `Connection::from`.
abbrev pub connection_of : {F : Type 0} → RankedServer F → Connection
connection_of s = record {
  server = s.name;
  location = s.location;
  country_code = s.country_code;
  endpoint = s.endpoint;
  entry = s.entry;
}

pub record State (F Tunnel : Type 0) : Type 0 where
  pub config : Config F
  pub config_path : Text
  pub client : ClientConfig
  pub servers : Option (ServerList × ℕ)
  pub tunnel : Option Tunnel
  pub current : Option Connection
  pub last_sweep : Option (SweepSummary F × ℕ)
  pub last_ranking : List (RankedServer F)
  pub pending : Option (RankedServer F × Text × ℕ)
  pub dismissed : Option (Text × ℕ)
  pub throughput_seen : List (Text × (F × ℕ))
  pub direct_mbps : Option (F × ℕ)
  pub last_tune : Option Text
  pub last_tune_at : Option ℕ

-- The errors of other crates stand as their text.
pub data Error : Type 0 where
  core tunnel throughput : Text → Error
  not_connected : Error
  already_connected unknown_server server_unreachable no_candidates : Text → Error
  all_unreachable : ℕ → Error
  no_pending_switch consent_required : Error

pub record Settings : Type 0 where
  pub url : Text
  pub bytes : ℕ
  pub timeout : ℕ

-- The machine, the network and the clock.
pub record Env (F : Type 0) : Type 1 where
  pub World : Type 0
  pub backend : Backend World
  pub now : World → ℕ
  pub wall : World → ℕ
  pub sleep : ℕ → World → World
  -- `airvpn::Client::new` and `fetch`, `Config::load`, and the reading of a key file.
  pub open_client : World → Outcome (Unit {0})
  pub fetch : World → Outcome ServerList × World
  pub load : Text → World → Outcome (Config F)
  pub read_key : World → Text → KeyFile
  pub handshake : Prober → SocketAddr → World → Attempt × World
  pub measure : Settings → World → Outcome (SpeedSample F) × World
  pub machine : World → Machine
  pub engage : Killswitch → World → Outcome (Unit {0}) × World
  pub release : World → Outcome (Unit {0}) × World
  pub is_engaged : World → Bool
  pub dropped : World → Option ℕ

pub data Result {ℓ} (A : Type ℓ) : Type ℓ where
  ok : A → Result A
  err : Error → Result A

abbrev pub from_outcome : {A : Type 0} → (Text → Error) → Outcome A → Result A
from_outcome wrap (done a) = ok a
from_outcome wrap (failed e) = err (wrap e)

-- An entry of a `HashMap<String, V>`.
module _ {V : Type 0} where
  unfoldable pub seen_at : Text → List (Text × V) → Option V
  unfolding text_eq
  seen_at k [] = none
  seen_at k ((j, v) ∷ m) = if text_eq j k then some v else seen_at k m

  unfoldable pub see : Text → V → List (Text × V) → List (Text × V)
  unfolding text_eq
  see k v [] = (k, v) ∷ []
  see k v ((j, u) ∷ m) = if text_eq j k then (k, v) ∷ m else (j, u) ∷ see k v m

module _ {F : Type 0} (env : Env F) where
  open env use {World, backend.{Tunnel}}

  pub record Sys : Type 0 where
    pub state : State F Tunnel
    pub world : World

  abbrev pub M : Type 0 → Type 0
  M A = Sys → Result A × Sys

-- What follows a step: an error ends the operation, and what was changed until then stays.
module _ {F : Type 0} {env : Env F} where
  abbrev pub continue : {A B : Type 0} → Result A × Sys env → (A → M env B) → Result B × Sys env
  continue (ok a, s) f = f a s
  continue (err e, s) f = (err e, s)

  infixl 5 ◌>>=◌ ◌>>◌
  abbrev pub ◌>>=◌ : {A B : Type 0} → M env A → (A → M env B) → M env B
  ◌>>=◌ m f s = continue (m s) f

  abbrev pub ◌>>◌ : {A B : Type 0} → M env A → M env B → M env B
  m >> k = m >>= λ _. k

  abbrev pub give : {A : Type 0} → A → M env A
  give a s = (ok a, s)

  abbrev pub fail : {A : Type 0} → Error → M env A
  fail e s = (err e, s)

  abbrev pub get : M env (State F env.backend.Tunnel)
  get s = (ok s.state, s)

  abbrev pub put : State F env.backend.Tunnel → M env (Unit {0})
  put state s = (ok tt, record s { state = state })

  -- A value read off the world.
  abbrev pub observe : {A : Type 0} → (env.World → A) → M env A
  observe f s = (ok (f s.world), s)

  -- A call that changes the world and cannot fail.
  abbrev pub run : {A : Type 0} → (env.World → A × env.World) → M env A
  run f s = let (a, w) = f s.world in (ok a, record s { world = w })

  abbrev pub lift : {A : Type 0} → Result A → M env A
  lift r s = (r, s)

  abbrev pub guard : Bool → Error → M env (Unit {0})
  guard true e = give tt
  guard false e = fail e
