-- ===== src/Daemon/Best/Reported.antt =====
-- The server that selection reports, and the one that the daemon is on.
use mathlib.Core.Path.{subst}
use vpnmgr.Common.{
  ◌≡◌, refl, sym, Bool, true, false, Option, none, some, is_none_or, List, [], ◌∷◌, Bool-cases, inl,
  inr, not, arith,
}
use vpnmgr.Common.Text.{Text, text_eq, text_eq_iff}
use vpnmgr.Common.Float.{Float}
use vpnmgr.Daemon.Ranked.{RankedServer}
use vpnmgr.Daemon.Env.{Connection, Env, Sys, M, Result, ok, err, continue, give, ◌>>◌}
use vpnmgr.Daemon.Steps.{St, IfOk}
use vpnmgr.Daemon.Connect.{move_to}
use vpnmgr.Daemon.Connect.Moves.{Arrived, move_to-Arrived}
use vpnmgr.Daemon.Select.{Tried, settled, exhausted, with_rate, try_one}
use vpnmgr.Daemon.Select.Settles.{On, SettledOn, try_one-SettledOn}
use vpnmgr.Daemon.Best.{try_all, next_candidate, go_back, settle}

module _ {F : Type 0} where
  -- What was reported is where the daemon is; with no candidate measured there is nothing to say.
  abbrev pub ReportedOn : Tried F → Result (RankedServer F) → Option Connection → Type 0
  ReportedOn (exhausted none) r current = Unit
  ReportedOn (exhausted (some best)) r current = IfOk (λ a. On a.name current) r
  ReportedOn (settled s) r current = IfOk (λ a. On a.name current) r

module _ {F : Type 0} ⦃fl : Float F⦄ (env : Env F) where
  next-SettledOn :
      (rest : Option (RankedServer F × F) → M env (Tried F)) (r : Result (Tried F) × Sys env)
      → SettledOn r.0 r.1.state.current
      → ((b : Option (RankedServer F × F)) (t : Sys env)
          → SettledOn (rest b t).0 (rest b t).1.state.current)
      → let q = continue r (next_candidate env rest) in SettledOn q.0 q.1.state.current
  unfolding next_candidate
  next-SettledOn rest (err e, t) h go = tt
  next-SettledOn rest (ok (settled r), t) h go = h
  next-SettledOn rest (ok (exhausted best), t) h go = go best t

  try_all-SettledOn :
      (bar : F) (is_first : Bool) (cs : List (RankedServer F)) (best : Option (RankedServer F × F))
      (s : Sys env)
      → let r = try_all env bar is_first cs best s in SettledOn r.0 r.1.state.current
  unfolding try_all
  try_all-SettledOn bar is_first [] best s = tt
  try_all-SettledOn bar is_first (c ∷ cs) best s =
      let rest : Option (RankedServer F × F) → M env (Tried F) = λ b. try_all env bar false cs b in
      next-SettledOn rest (try_one env bar is_first c best s)
        (try_one-SettledOn env bar is_first c best s) (λ b t. try_all-SettledOn bar false cs b t)

  moved-On :
      (r chosen : RankedServer F) (s : St env) (q : Result (Unit {0}) × Sys env)
      → Arrived r s q.0 q.1.state
      → chosen.name ≡ r.name
      → let z = continue q (λ _. give chosen) in IfOk (λ a. On a.name z.1.state.current) z.0
  moved-On r chosen s (ok _, t) h e = rw (h.1, e) refl
  moved-On r chosen s (err e, t) h k = tt

  already-On :
      (name : Text) (o : Option Connection)
      → is_none_or (λ c. not (text_eq c.server name)) o ≡ false
      → On name o
  already-On name none h = absurd (ground arith)
  already-On name (some c) h = ground (arith, text_eq_iff c.server name)

  gone_back-On :
      (r chosen : RankedServer F) (s : Sys env)
      → chosen.name ≡ r.name
      → let z = (go_back env r >> give chosen) s in IfOk (λ a. On a.name z.1.state.current) z.0
  unfolding go_back
  gone_back-On r chosen s e =
      elim (Bool-cases (is_none_or (λ c. not (text_eq c.server r.name)) s.state.current)) [
        | inl far ↦ rw far (moved-On r chosen s.state (move_to env r s) (move_to-Arrived env r s) e)
        | inr near ↦
            rw near
              (subst (λ n. On n s.state.current) (sym e) (already-On r.name s.state.current near))
      ]

  settle-ReportedOn :
      (head : RankedServer F) (tried : Tried F) (s : Sys env)
      → SettledOn (ok tried) s.state.current
      → let z = settle env head tried s in ReportedOn tried z.0 z.1.state.current
  unfolding settle
  settle-ReportedOn head (settled r) s h = h
  settle-ReportedOn head (exhausted (some (r, mbps))) s h = gone_back-On r (with_rate mbps r) s refl
  settle-ReportedOn head (exhausted none) s h = tt

  outcome-ReportedOn :
      (head : RankedServer F) (r : Result (Tried F) × Sys env)
      → SettledOn r.0 r.1.state.current
      → IfOk
          (λ tried.
            ReportedOn tried
              (settle env head tried r.1).0
              (settle env head tried r.1).1.state.current)
          r.0
  outcome-ReportedOn head (err e, t) h = tt
  outcome-ReportedOn head (ok tried, t) h = settle-ReportedOn head tried t h

  -- Where at least one of the candidates was measured, the server that selection reports is the one
  -- that the connection is to, on a candidate that met the bar as on the return to the fastest one.
  pub try_all-ReportedOn :
      (bar : F) (cs : List (RankedServer F)) (head : RankedServer F) (s : Sys env)
      → let r = try_all env bar true cs none s in
        IfOk
          (λ tried.
            ReportedOn tried
              (settle env head tried r.1).0
              (settle env head tried r.1).1.state.current)
          r.0
  try_all-ReportedOn bar cs head s =
      outcome-ReportedOn head (try_all env bar true cs none s)
        (try_all-SettledOn bar true cs none s)
