-- ===== src/Daemon/Best.antt =====
-- Connecting, to a named server or to the best one found by measuring: `connect` and `connect_best` of
-- crates/vpnmgrd/src/state.rs.
pub mod Travel
pub mod Chosen
pub mod Reported
use vpnmgr.Common.{
  ◌≡◌, refl, ℕ, min, Bool, true, false, not, Option, none, some, is_none, is_none_or, List, [], ◌∷◌,
  length, take, ◌==◌, if◌then◌else◌,
}
use vpnmgr.Common.Text.{Text, text_eq}
use vpnmgr.Common.Float.{Float}
use vpnmgr.Core.Config.Targets.{acceptance_mbps}
use vpnmgr.Daemon.Ranked.{RankedServer}
use vpnmgr.Daemon.Env.{
  Connection, State, already_connected, all_unreachable, Env, Sys, err, M, ◌>>=◌, ◌>>◌, give, fail,
  get,
}
use vpnmgr.Daemon.Sweep.{sweep, probe_named, direct_rate}
use vpnmgr.Daemon.Connect.{establish, move_to}
use vpnmgr.Daemon.Select.{Tried, settled, exhausted, with_rate, measure_line, try_one}

-- `Option::unwrap_or`.
abbrev unwrap_or : Option Bool → Bool → Bool
unwrap_or none d = d
unwrap_or (some b) d = b

module _ {F : Type 0} ⦃fl : Float F⦄ (env : Env F) where
  next_candidate : (Option (RankedServer F × F) → M env (Tried F)) → Tried F → M env (Tried F)
  next_candidate rest (settled s) = give (settled s)
  next_candidate rest (exhausted best) = rest best

  unfoldable pub try_all :
      F → Bool → List (RankedServer F) → Option (RankedServer F × F) → M env (Tried F)
  unfolding next_candidate
  try_all bar is_first [] best = give (exhausted best)
  try_all bar is_first (c ∷ cs) best = do
    tried ← try_one env bar is_first c best
    next_candidate (λ b. try_all bar false cs b) tried

  -- The tunnel stands on the last candidate tried; it goes back to the fastest one.
  go_back : RankedServer F → M env (Unit {0})
  go_back s = do
    state ← get
    (if is_none_or (λ c. not (text_eq c.server s.name)) state.current
        then move_to env s
        else give tt)

  fall_back : RankedServer F → M env (Unit {0})
  fall_back s = do state ← get; (if is_none state.current then establish env s else give tt)

  -- What follows the loop over the shortlist, of which the first entry is given.
  unfoldable pub settle : RankedServer F → Tried F → M env (RankedServer F)
  unfolding go_back fall_back
  settle head (settled s) = give s
  settle head (exhausted (some (s, mbps))) = go_back s >> give (with_rate mbps s)
  settle head (exhausted none) = fall_back head >> give head

  choose : F → ℕ → List (RankedServer F) → M env (RankedServer F)
  unfolding settle
  choose bar attempts [] = fail (all_unreachable 0)
  choose bar attempts (head ∷ rest) =
      if attempts == 0
      then establish env head >> give head
      else do tried ← try_all bar true (take attempts (head ∷ rest)) none; settle head tried

  sweep_and_choose : Bool → M env (RankedServer F)
  unfolding choose
  sweep_and_choose should_measure = do
    ranked ← sweep env none
    s ← get
    let bar = acceptance_mbps s.config.autotune (direct_rate s)
    let attempts =
        if should_measure then min s.config.autotune.verify_candidates (length ranked) else 0
    choose bar attempts ranked

  unfoldable pub connect_best : Option Bool → M env (RankedServer F)
  unfolding sweep_and_choose
  connect_best measure_first = do
    s ← get
    let should_measure = unwrap_or measure_first s.config.autotune.measure_before_connect
    measure_line env should_measure
    sweep_and_choose should_measure

  -- A named server is taken as it is; only automatic selection measures.
  connect_to : Option Text → Option Bool → M env (RankedServer F)
  unfolding connect_best
  connect_to none measure = connect_best measure
  connect_to (some name) measure = do
    chosen ← probe_named env name
    establish env chosen
    give chosen

  connect_from : Option Connection → Option Text → Option Bool → M env (RankedServer F)
  unfolding connect_to
  connect_from (some c) server measure = fail (already_connected c.server)
  connect_from none server measure = connect_to server measure

  unfoldable pub connect : Option Text → Option Bool → M env (RankedServer F)
  unfolding connect_from
  connect server measure = do s ← get; connect_from s.current server measure

  -- While there is a connection nothing is connected to.
  pub connect-refused :
      (c : Connection) (server : Option Text) (measure : Option Bool) (s : Sys env)
      → s.state.current ≡ some c
      → connect server measure s ≡ (err (already_connected c.server), s)
  unfolding connect connect_from
  connect-refused c server measure s e = rw e refl
