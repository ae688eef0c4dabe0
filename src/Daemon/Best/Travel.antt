-- ===== src/Daemon/Best/Travel.antt =====
-- Selecting and connecting keep the settings and the proposal, and keep a tunnel with a connection.
use vpnmgr.Common.{
  ℕ, Bool, true, false, Option, none, some, is_none, List, [], ◌∷◌, Bool-cases, inl, inr, not,
  is_none_or, ◌==◌, take,
}
use vpnmgr.Common.Text.{Text, text_eq}
use vpnmgr.Common.Float.{Float}
use vpnmgr.Daemon.Ranked.{RankedServer}
use vpnmgr.Daemon.Env.{Connection, Env, M}
use vpnmgr.Daemon.Steps.{Travels-refl, Travelling, next-Travelling, framed}
use vpnmgr.Daemon.Sweep.{sweep, probe_named}
use vpnmgr.Daemon.Sweep.Frame.{sweep-Frame, probe_named-Frame}
use vpnmgr.Daemon.Connect.{establish}
use vpnmgr.Daemon.Connect.Travel.{establish-Travels, move_to-Travels}
use vpnmgr.Daemon.Select.{Tried, settled, exhausted, measure_line, try_one}
use vpnmgr.Daemon.Select.Frame.{measure_line-Frame, try_one-Travels}
use vpnmgr.Daemon.Best.{
  try_all, next_candidate, go_back, fall_back, settle, choose, connect_best, sweep_and_choose,
  connect_to, connect_from, connect, unwrap_or,
}

module _ {F : Type 0} ⦃fl : Float F⦄ (env : Env F) where
  next-Travels :
      (rest : Option (RankedServer F × F) → M env (Tried F)) (t : Tried F)
      → ((b : Option (RankedServer F × F)) → Travelling env (rest b))
      → Travelling env (next_candidate env rest t)
  unfolding next_candidate
  next-Travels rest (settled r) h s = Travels-refl s.state
  next-Travels rest (exhausted best) h s = h best s

  try_all-Travels :
      (bar : F) (is_first : Bool) (cs : List (RankedServer F)) (best : Option (RankedServer F × F))
      → Travelling env (try_all env bar is_first cs best)
  unfolding try_all
  try_all-Travels bar is_first [] best s = Travels-refl s.state
  try_all-Travels bar is_first (c ∷ cs) best s =
      next-Travelling env (try_one env bar is_first c best) _
        (try_one-Travels env bar is_first c best)
        (λ t. next-Travels (λ b. try_all env bar false cs b) t (try_all-Travels bar false cs)) s

  go_back-Travels : (r : RankedServer F) → Travelling env (go_back env r)
  unfolding go_back
  go_back-Travels r s =
      elim (Bool-cases (is_none_or (λ c. not (text_eq c.server r.name)) s.state.current)) [
        | inl e ↦ rw e (move_to-Travels env r s)
        | inr e ↦ rw e (Travels-refl s.state)
      ]

  fall_back-Travels : (r : RankedServer F) → Travelling env (fall_back env r)
  unfolding fall_back
  fall_back-Travels r s = elim (Bool-cases (is_none s.state.current)) [
    | inl e ↦ rw e (establish-Travels env r s)
    | inr e ↦ rw e (Travels-refl s.state)
  ]

  settle-Travels : (head : RankedServer F) (t : Tried F) → Travelling env (settle env head t)
  unfolding settle
  settle-Travels head (settled r) s = Travels-refl s.state
  settle-Travels head (exhausted (some (r, mbps))) s =
      next-Travelling env (go_back env r) _ (go_back-Travels r) (λ _ t. Travels-refl t.state) s
  settle-Travels head (exhausted none) s =
      next-Travelling env (fall_back env head) _ (fall_back-Travels head)
        (λ _ t. Travels-refl t.state) s

  choose-Travels :
      (bar : F) (attempts : ℕ) (ranked : List (RankedServer F))
      → Travelling env (choose env bar attempts ranked)
  unfolding choose
  choose-Travels bar attempts [] s = Travels-refl s.state
  choose-Travels bar attempts (head ∷ rest) s = elim (Bool-cases (attempts == 0)) [
    | inl e ↦ rw e (
        next-Travelling env (establish env head) _ (establish-Travels env head)
          (λ _ t. Travels-refl t.state) s)
    | inr e ↦ rw e (
        next-Travelling env (try_all env bar true (take attempts (head ∷ rest)) none) _
          (try_all-Travels bar true (take attempts (head ∷ rest)) none) (settle-Travels head) s)
  ]

  sweep_and_choose-Travels : (b : Bool) → Travelling env (sweep_and_choose env b)
  unfolding sweep_and_choose
  sweep_and_choose-Travels b s =
      next-Travelling env (sweep env none) _ (framed env (sweep env none) (sweep-Frame env none))
        (λ ranked t. choose-Travels _ _ ranked t) s

  connect_best-Travels : (measure : Option Bool) → Travelling env (connect_best env measure)
  unfolding connect_best
  connect_best-Travels measure s =
      let go = unwrap_or measure s.state.config.autotune.measure_before_connect in
      next-Travelling env (measure_line env go) _
        (framed env (measure_line env go) (measure_line-Frame env go))
        (λ _. sweep_and_choose-Travels go) s

  connect_to-Travels :
      (server : Option Text) (measure : Option Bool)
      → Travelling env (connect_to env server measure)
  unfolding connect_to
  connect_to-Travels none measure s = connect_best-Travels measure s
  connect_to-Travels (some name) measure s =
      next-Travelling env (probe_named env name) _
        (framed env (probe_named env name) (probe_named-Frame env name))
        (λ chosen.
          next-Travelling env (establish env chosen) _ (establish-Travels env chosen)
            (λ _ t. Travels-refl t.state))
        s

  connect_from-Travels :
      (o : Option Connection) (server : Option Text) (measure : Option Bool)
      → Travelling env (connect_from env o server measure)
  unfolding connect_from
  connect_from-Travels none server measure s = connect_to-Travels server measure s
  connect_from-Travels (some c) server measure s = Travels-refl s.state

  pub connect-Travels :
      (server : Option Text) (measure : Option Bool) → Travelling env (connect env server measure)
  unfolding connect
  connect-Travels server measure s = connect_from-Travels s.state.current server measure s
