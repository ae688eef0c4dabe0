-- ===== src/Daemon/Best/Chosen.antt =====
-- Automatic selection goes only where the filters allow.
use mathlib.Core.Path.{subst}
use vpnmgr.Common.{
  ◌≡◌, In, All-in, All-found, ℕ, refl, Bool, true, false, Option, none, some, is_none, List, [],
  ◌∷◌, All, All-take, Bool-cases, inl, inr, not, is_none_or, ◌==◌, take,
}
use vpnmgr.Common.Text.{text_eq}
use vpnmgr.Common.Float.{Float}
use vpnmgr.Core.Config.{Filters}
use vpnmgr.Daemon.Ranked.{RankedServer}
use vpnmgr.Daemon.Env.{connection_of, Env, Sys, M, Result, ok, err, continue}
use vpnmgr.Daemon.Steps.{Steps, St, bind-Steps, IfOk, Frame}
use vpnmgr.Daemon.Sweep.{sweep}
use vpnmgr.Daemon.Sweep.Frame.{sweep-Frame}
use vpnmgr.Daemon.Sweep.Allowed.{Allowed, sweep-Yields}
use vpnmgr.Daemon.Connect.{establish, move_to}
use vpnmgr.Daemon.Connect.Moves.{establish-Arrived, move_to-Arrived}
use vpnmgr.Daemon.Select.{with_rate, Tried, settled, exhausted, measure_line, try_one}
use vpnmgr.Daemon.Select.Frame.{measure_line-Frame}
use vpnmgr.Daemon.Select.Tries.{
  OnlyTo, OnlyTo-trans, Frame-OnlyTo, Arrived-OnlyTo, BestAllowed, TriedAllowed, try_one-OnlyTo,
  try_one-Allowed,
}
use vpnmgr.Daemon.Best.{
  try_all, next_candidate, go_back, fall_back, settle, choose, connect_best, sweep_and_choose,
  unwrap_or,
}

module _ {F : Type 0} ⦃fl : Float F⦄ (env : Env F) (P : RankedServer F → Type 0)
    (rated : (mbps : F) (r : RankedServer F) → P r → P (with_rate mbps r)) where
  next-OnlyTo :
      (rest : Option (RankedServer F × F) → M env (Tried F)) (s : St env)
      (r : Result (Tried F) × Sys env)
      → OnlyTo P s r.1.state
      → IfOk (TriedAllowed P) r.0
      → ((b : Option (RankedServer F × F))
          → BestAllowed P b
          → Steps {env = env} (OnlyTo P) (rest b))
      → OnlyTo P s (continue r (next_candidate env rest)).1.state
  unfolding next_candidate
  next-OnlyTo rest s (err e, t) h k go = h
  next-OnlyTo rest s (ok (settled r), t) h k go = h
  next-OnlyTo rest s (ok (exhausted best), t) h k go =
      OnlyTo-trans P s t.state (rest best t).1.state h (go best k t)

  next-Allowed :
      (rest : Option (RankedServer F × F) → M env (Tried F)) (r : Result (Tried F) × Sys env)
      → IfOk (TriedAllowed P) r.0
      → ((b : Option (RankedServer F × F))
          → BestAllowed P b
          → (t : Sys env) → IfOk (TriedAllowed P) (rest b t).0)
      → IfOk (TriedAllowed P) (continue r (next_candidate env rest)).0
  unfolding next_candidate
  next-Allowed rest (err e, t) k go = tt
  next-Allowed rest (ok (settled r), t) k go = k
  next-Allowed rest (ok (exhausted best), t) k go = go best k t

  try_all-Allowed :
      (bar : F) (is_first : Bool) (cs : List (RankedServer F)) (best : Option (RankedServer F × F))
      → All P cs
      → BestAllowed P best
      → (s : Sys env)
      → OnlyTo P s.state (try_all env bar is_first cs best s).1.state
        × IfOk (TriedAllowed P) (try_all env bar is_first cs best s).0
  unfolding try_all
  try_all-Allowed bar is_first [] best h k s = (inl refl, k)
  try_all-Allowed bar is_first (c ∷ cs) best h k s =
      let rest : Option (RankedServer F × F) → M env (Tried F) = λ b. try_all env bar false cs b in
      let r = try_one env bar is_first c best s in
      let tried = try_one-Allowed env P rated bar is_first c best k h.0 s in
      (
        next-OnlyTo rest s.state r (try_one-OnlyTo env P rated bar is_first c best h.0 s) tried
            (λ b q t. (try_all-Allowed bar false cs b h.1 q t).0),
        next-Allowed rest r tried (λ b q t. (try_all-Allowed bar false cs b h.1 q t).1),
      )

  move_to-OnlyTo : (r : RankedServer F) → P r → Steps {env = env} (OnlyTo P) (move_to env r)
  move_to-OnlyTo r h s =
      let q = move_to env r s in
      Arrived-OnlyTo P r s.state q.1.state q.0 h (move_to-Arrived env r s)

  establish-OnlyTo : (r : RankedServer F) → P r → Steps {env = env} (OnlyTo P) (establish env r)
  establish-OnlyTo r h s =
      let q = establish env r s in
      Arrived-OnlyTo P r s.state q.1.state q.0 h (establish-Arrived env r s)

  go_back-OnlyTo : (r : RankedServer F) → P r → Steps {env = env} (OnlyTo P) (go_back env r)
  unfolding go_back
  go_back-OnlyTo r h s =
      elim (Bool-cases (is_none_or (λ c. not (text_eq c.server r.name)) s.state.current)) [
        | inl e ↦ rw e (move_to-OnlyTo r h s)
        | inr e ↦ rw e (inl refl)
      ]

  fall_back-OnlyTo : (r : RankedServer F) → P r → Steps {env = env} (OnlyTo P) (fall_back env r)
  unfolding fall_back
  fall_back-OnlyTo r h s = elim (Bool-cases (is_none s.state.current)) [
    | inl e ↦ rw e (establish-OnlyTo r h s)
    | inr e ↦ rw e (inl refl)
  ]

  settle-OnlyTo :
      (head : RankedServer F) (t : Tried F)
      → P head
      → TriedAllowed P t
      → Steps {env = env} (OnlyTo P) (settle env head t)
  unfolding settle
  settle-OnlyTo head (settled r) h k s = inl refl
  settle-OnlyTo head (exhausted (some (r, mbps))) h k s =
      bind-Steps {env = env} (OnlyTo P) (OnlyTo-trans P) (go_back env r) _ (go_back-OnlyTo r k)
        (λ _ t. inl refl) s
  settle-OnlyTo head (exhausted none) h k s =
      bind-Steps {env = env} (OnlyTo P) (OnlyTo-trans P) (fall_back env head) _
        (fall_back-OnlyTo head h) (λ _ t. inl refl) s

  tried-OnlyTo :
      (head : RankedServer F) (s : St env) (r : Result (Tried F) × Sys env)
      → P head
      → OnlyTo P s r.1.state
      → IfOk (TriedAllowed P) r.0
      → OnlyTo P s (continue r (settle env head)).1.state
  tried-OnlyTo head s (err e, t) h k q = k
  tried-OnlyTo head s (ok tried, t) h k q =
      OnlyTo-trans P s t.state (settle env head tried t).1.state k (settle-OnlyTo head tried h q t)

  choose-OnlyTo :
      (bar : F) (attempts : ℕ) (ranked : List (RankedServer F))
      → All P ranked
      → Steps {env = env} (OnlyTo P) (choose env bar attempts ranked)
  unfolding choose
  choose-OnlyTo bar attempts [] h s = inl refl
  choose-OnlyTo bar attempts (head ∷ rest) h s = elim (Bool-cases (attempts == 0)) [
    | inl e ↦ rw e (
        bind-Steps {env = env} (OnlyTo P) (OnlyTo-trans P) (establish env head) _
          (establish-OnlyTo head h.0) (λ _ t. inl refl) s)
    | inr e ↦
        let cs = take attempts (head ∷ rest) in
        let (only, tried) =
          try_all-Allowed bar true cs none (All-take P attempts (head ∷ rest) h) tt s in
        rw e (tried-OnlyTo head s.state (try_all env bar true cs none s) h.0 only tried)
  ]

module _ {F : Type 0} ⦃fl : Float F⦄ (env : Env F) where
  -- The sweep from this state ranked the server of this connection, and the filters let it through with
  -- its name, its country and the load that it was ranked with.
  pub record Swept (f : Filters) (s : Sys env) (r : RankedServer F) : Type 0 where
    pub ranked : List (RankedServer F)
    pub result : (sweep env none s).0 ≡ ok ranked
    pub at : RankedServer F
    pub found : In at ranked
    pub allowed : Allowed f at
    pub same : connection_of r ≡ connection_of at

  Swept-rated :
      (f : Filters) (s : Sys env) (mbps : F) (r : RankedServer F)
      → Swept f s r
      → Swept f s (with_rate mbps r)
  Swept-rated f s mbps r h = record {
    ranked = h.ranked;
    result = h.result;
    at = h.at;
    found = h.found;
    allowed = h.allowed;
    same = h.same;
  }

  all-Swept :
      (f : Filters) (s : Sys env) (ranked : List (RankedServer F))
      → (sweep env none s).0 ≡ ok ranked
      → All (Allowed f) ranked
      → All (Swept f s) ranked
  all-Swept f s ranked e h = All-found (Swept f s) ranked (λ r m. record {
    ranked = ranked;
    result = e;
    at = r;
    found = m;
    allowed = All-in (Allowed f) ranked r h m;
    same = refl;
  })

  ranked-OnlyTo :
      (P : RankedServer F → Type 0) (s : St env) (r : Result (List (RankedServer F)) × Sys env)
      (next : List (RankedServer F) → M env (RankedServer F))
      → OnlyTo P s r.1.state
      → ((ranked : List (RankedServer F)) → r.0 ≡ ok ranked → All P ranked)
      → ((ranked : List (RankedServer F))
          → All P ranked
          → Steps {env = env} (OnlyTo P) (next ranked))
      → OnlyTo P s (continue r next).1.state
  ranked-OnlyTo P s (err e, t) next h k go = h
  ranked-OnlyTo P s (ok ranked, t) next h k go =
      OnlyTo-trans P s t.state (next ranked t).1.state h (go ranked (k ranked refl) t)

  sweep_and_choose-OnlyTo :
      (b : Bool) (s : Sys env)
      → OnlyTo (Swept s.state.config.filters s) s.state (sweep_and_choose env b s).1.state
  unfolding sweep_and_choose
  sweep_and_choose-OnlyTo b s =
      let f = s.state.config.filters in
      let P = Swept f s in
      ranked-OnlyTo P s.state (sweep env none s) _
        (Frame-OnlyTo P s.state (sweep env none s).1.state (sweep-Frame env none s))
        (λ ranked e.
          all-Swept f s ranked e (subst (IfOk (All (Allowed f))) e (sweep-Yields env none s)))
        (λ ranked h t. choose-OnlyTo env P (Swept-rated f s) _ _ ranked h t)

  after_line-OnlyTo :
      (b : Bool) (s : St env) (r : Result (Unit {0}) × Sys env)
      → Frame s r.1.state
      → OnlyTo (Swept s.config.filters r.1) s (continue r (λ _. sweep_and_choose env b)).1.state
  after_line-OnlyTo b s (err e, t) h = inl h.current
  after_line-OnlyTo b s (ok _, t) h =
      let P = Swept s.config.filters t in
      OnlyTo-trans P s t.state (sweep_and_choose env b t).1.state (inl h.current) (
        subst (λ c. OnlyTo (Swept c.filters t) t.state (sweep_and_choose env b t).1.state) h.config
          (sweep_and_choose-OnlyTo b t))

  -- Whether the line is measured before the choice.
  abbrev pub should_measure : Option Bool → Sys env → Bool
  should_measure measure s = unwrap_or measure s.state.config.autotune.measure_before_connect

  -- Connecting to the best server leaves the connection as it was, or at a server that the sweep, which
  -- follows the measuring of the line, has ranked and that the filters of the settings allow with the
  -- load it was ranked with, whether the whole succeeds or fails part of the way.
  pub connect_best-OnlyTo :
      (measure : Option Bool) (s : Sys env)
      → OnlyTo
          (Swept s.state.config.filters (measure_line env (should_measure measure s) s).1)
          s.state
          (connect_best env measure s).1.state
  unfolding connect_best
  connect_best-OnlyTo measure s =
      let b = should_measure measure s in
      after_line-OnlyTo b s.state (measure_line env b s) (measure_line-Frame env b s)
