-- ===== src/Tray/Linux/Worker/Served.antt =====
-- The Linux tray with the daemon behind its socket.
use vpnmgr.Common.{
  arith, true, false, Bool-cases, inl, inr, ◌≡◌, refl, sym, ap, ◌∙◌, Bool, false, Option, none,
  some, is_some, List, [], ◌∷◌,
}
use mathlib.Core.Path.{subst}
use vpnmgr.Common.Text.{text, Text}
use vpnmgr.Common.Float.{Float}
use vpnmgr.Tunnel.Spec.Interface.{done}
use vpnmgr.Daemon.Ranked.{RankedServer}
use vpnmgr.Daemon.Env.{Env, Sys}
use vpnmgr.Daemon.Report
use vpnmgr.Daemon.Report.{status-connected}
use vpnmgr.Daemon.Handle.{Request, handle}
use vpnmgr.Daemon.Handle.Looks.{handle-servers-Frame}
use vpnmgr.Daemon.Handle.Reached.{Reached, start, request, pass, outside}
use vpnmgr.Tray.Client.{
  Action, connect, disconnect, autotune, edit_config, approve, dismiss, quit, Ran, Desktop, told,
  quick_connect_limit,
}
use vpnmgr.Tray.Linux.{new_tray, VpnTray, connected, says_connected}
use vpnmgr.Tray.Linux.Worker.Answered.{carry_out-Answered}
use vpnmgr.Tray.Linux.Worker.{
  is_settled, editors, start_request, prepare, edit, open_editor, request_of, fall_back, lists,
  show_answers, refresh, carry_out, end_request, run_action, map_some,
}

-- What to ask for, by whether there is a connection.
abbrev pub fitting : Bool → Text → Option Bool → Request × Text
fitting true server measure = (Request.switch server, text "Switching")
fitting false server measure = (Request.connect (some server) measure, text "Connecting")

fitting_lem :
    (b : Bool) (server : Text) (measure : Option Bool)
    → request_of b (connect (some server) measure) ≡ some (fitting b server measure)
unfolding request_of
fitting_lem true server measure = refl
fitting_lem false server measure = refl

abbrev IfSome : {A : Type 0} → (A → Type 0) → Option A → Type 0
IfSome P none = Unit
IfSome P (some a) = P a

module _ {F : Type 0} ⦃fl : Float F⦄ (env : Env F) (debug : Text → Text)
    (has_pkexec : env.World → Bool) (open_with : Text → Text → env.World → Ran × env.World) where
  -- A daemon that answers, on a desktop with these programs.
  abbrev pub served : Desktop F
  served = record {
    World = Sys env;
    ask = λ r s. let (response, s') = handle env r s in (done response, s');
    debug = debug;
    has_pkexec = λ s. has_pkexec s.world;
    open_with = λ editor path s.
        let (ran, w) = open_with editor path s.world in (ran, record s { world = w });
  }

  fall_back-current :
      (rs : List (RankedServer F)) (s : Sys env)
      → (fall_back served rs s).1.state.current ≡ s.state.current
  unfolding fall_back
  fall_back-current [] s =
      (handle-servers-Frame env none (some quick_connect_limit) false s).current
  fall_back-current (r ∷ rs) s = refl

  fall_back-Reached :
      (a : Sys env) (rs : List (RankedServer F)) (s : Sys env)
      → Reached env a s
      → Reached env a (fall_back served rs s).1
  unfolding fall_back
  fall_back-Reached a [] s h = request _ h
  fall_back-Reached a (r ∷ rs) s h = h

  refresh-InStep :
      (t : VpnTray F) (s : Sys env)
      → connected (refresh served t s).0 ≡ is_some (refresh served t s).1.state.current
  unfolding refresh show_answers lists told connected says_connected handle
  refresh-InStep t s =
      status-connected env s.state s.world
      ∙ sym (
          ap is_some (
            fall_back-current
              (Report.last_ranking (env.now s.world) (some quick_connect_limit) s.state) s))

  refresh-Reached :
      (a : Sys env) (t : VpnTray F) (s : Sys env)
      → Reached env a s
      → Reached env a (refresh served t s).1
  unfolding refresh show_answers lists told handle
  refresh-Reached a t s h =
      fall_back-Reached a (Report.last_ranking (env.now s.world) (some quick_connect_limit) s.state)
        s h

  -- The tray with nothing under way, calling the daemon connected exactly if it is, and the daemon in a
  -- state that it can come to from `a`.
  pub record InStep (a : Sys env) (r : VpnTray F × Sys env) : Type 0 where
    pub idle : r.0.busy ≡ none
    pub truthful : connected r.0 ≡ is_some r.1.state.current
    pub reached : Reached env a r.1
    pub fits :
        (server : Text) (measure : Option Bool)
        → request_of (connected r.0) (connect (some server) measure)
          ≡ some (fitting (is_some r.1.state.current) server measure)

  asks-Fitting :
      (t : VpnTray F) (s : Sys env)
      → connected t ≡ is_some s.state.current
      → (server : Text) (measure : Option Bool)
      → request_of (connected t) (connect (some server) measure)
        ≡ some (fitting (is_some s.state.current) server measure)
  asks-Fitting t s e server measure = rw e (fitting_lem (is_some s.state.current) server measure)

  carry_out-InStep :
      (a : Sys env) (job : Request × Text) (t : VpnTray F) (s : Sys env)
      → Reached env a s
      → InStep a (carry_out served job t s)
  unfolding carry_out
  carry_out-InStep a (r, busy) t s h = record {
    idle = (carry_out-Answered served r busy t s).idle;
    truthful =
        refresh-InStep (end_request served (done (handle env r s).0) (start_request served busy t))
          (handle env r s).1;
    reached =
        refresh-Reached a
          (end_request served (done (handle env r s).0) (start_request served busy t))
          (handle env r s).1 (request r h);
    fits =
        let t1 = end_request served (done (handle env r s).0) (start_request served busy t) in
        let next = refresh served t1 (handle env r s).1 in
        asks-Fitting next.0 next.1 (refresh-InStep t1 (handle env r s).1);
  }

  open_editor-Reached :
      (a : Sys env) (es : List Text) (path : Text) (s : Sys env)
      → Reached env a s
      → Reached env a (open_editor served es path s)
  unfolding open_editor
  open_editor-Reached a [] path s h = h
  open_editor-Reached a (e ∷ es) path s h =
      let s1 = (served.open_with e path s).1 in
      let h1 = outside s1.world h in
      elim (Bool-cases (is_settled served (open_with e path s.world).0)) [
        | inl k ↦ rw k h1
        | inr k ↦ rw k (open_editor-Reached a es path s1 h1)
      ]

  prepare-Reached :
      (a : Sys env) (action : Action) (s : Sys env)
      → Reached env a s
      → Reached env a (prepare served action s)
  unfolding prepare edit
  prepare-Reached a (edit_config path) s h = elim (Bool-cases (has_pkexec s.world)) [
    | inl k ↦ rw k (open_editor-Reached a editors path s h)
    | inr k ↦ rw k h
  ]
  prepare-Reached a (connect o m) s h = h
  prepare-Reached a disconnect s h = h
  prepare-Reached a autotune s h = h
  prepare-Reached a approve s h = h
  prepare-Reached a dismiss s h = h
  prepare-Reached a quit s h = h

  Reached-trans : (a s u : Sys env) → Reached env a s → Reached env s u → Reached env a u
  Reached-trans a s u h start = h
  Reached-trans a s u h (request {t = v} r past) = request r (Reached-trans a s v h past)
  Reached-trans a s u h (pass {t = v} past) = pass (Reached-trans a s v h past)
  Reached-trans a s u h (outside {t = v} w past) = outside w (Reached-trans a s v h past)

  -- How the tray and the daemon go on from `a`: the tray carries out an action or polls, each to its end
  -- before the next, and in between the daemon serves others, passes its time and sees the world change.
  -- The flag says that the tray was refreshed last.
  pub data Course (a : Sys env) : Bool → VpnTray F → Sys env → Type 0 where
    begins : Course a false new_tray a
    acts :
        {b : Bool} {t u : VpnTray F} {s v : Sys env} (action : Action)
        → Course a b t s
        → run_action served action t s ≡ some (u, v)
        → Course a true u v
    polls :
        {b : Bool} {t : VpnTray F} {s : Sys env}
        → Course a b t s
        → Course a true (refresh served t s).0 (refresh served t s).1
    others :
        {b : Bool} {t : VpnTray F} {s u : Sys env}
        → Course a b t s
        → Reached env s u
        → Course a false t u

  abbrev IfSeen : Bool → Type 0 → Type 0
  IfSeen true P = P
  IfSeen false P = Unit

  record Known (a : Sys env) (b : Bool) (t : VpnTray F) (s : Sys env) : Type 0 where
    idle : t.busy ≡ none
    reached : Reached env a s
    seen : IfSeen b (connected t ≡ is_some s.state.current)

  InStep-Known : (a : Sys env) (r : VpnTray F × Sys env) → InStep a r → Known a true r.0 r.1
  InStep-Known a r h = record { idle = h.idle; reached = h.reached; seen = h.truthful }

  acted-Known :
      (a : Sys env) (o : Option (Request × Text)) (t u : VpnTray F) (s v : Sys env)
      → map_some (λ job. carry_out served job t s) o ≡ some (u, v)
      → Reached env a s
      → Known a true u v
  acted-Known a none t u s v e h = absurd (ground (arith, e))
  acted-Known a (some job) t u s v e h =
      subst (λ o. IfSome (λ r. Known a true r.0 r.1) o) e
        (InStep-Known a (carry_out served job t s) (carry_out-InStep a job t s h))

  refresh-idle : (t : VpnTray F) (s : Sys env) → (refresh served t s).0.busy ≡ t.busy
  unfolding refresh show_answers
  refresh-idle t s = refl

  Course-Known :
      (a : Sys env) (b : Bool) (t : VpnTray F) (s : Sys env) → Course a b t s → Known a b t s
  unfolding run_action
  Course-Known a b t s begins = record { idle = refl; reached = start; seen = tt }
  Course-Known a b t s (acts {b = c} {t = t0} {s = s0} action past e) =
      acted-Known a (request_of (connected t0) action) t0 t (prepare served action s0) s e
        (prepare-Reached a action s0 ((Course-Known a c t0 s0 past).reached))
  Course-Known a b t s (polls {b = c} {t = t0} {s = s0} past) =
      let k = Course-Known a c t0 s0 past in
      record {
        idle = refresh-idle t0 s0 ∙ k.idle;
        reached = refresh-Reached a t0 s0 k.reached;
        seen = refresh-InStep t0 s0;
      }
  Course-Known a b t s (others {b = c} {s = s0} past more) =
      let k = Course-Known a c t s0 past in
      record { idle = k.idle; reached = Reached-trans a s0 s k.reached more; seen = tt }

  -- After every action and every poll, each carried out to its end, and whatever the daemon has done for
  -- others before it, the tray has nothing under way, calls the daemon connected exactly if it is, and
  -- asks to switch to a server that is chosen then if there is a connection, and to connect if not; and
  -- the daemon is in a state that requests, passes and changes of the world lead to.
  pub Course-InStep :
      (a : Sys env) (t : VpnTray F) (s : Sys env) → Course a true t s → InStep a (t, s)
  Course-InStep a t s course =
      let k = Course-Known a true t s course in
      record {
        idle = k.idle;
        truthful = k.seen;
        reached = k.reached;
        fits = asks-Fitting t s k.seen;
      }
