-- ===== src/Tunnel/Spec/Restores.antt =====
-- What the daemon may rely on of any backend for the main routing table, one route at a time.
use vpnmgr.Common.{◌≡◌, ◌∙◌, refl, Bool, List, [], ◌∷◌, All}
use vpnmgr.Common.Text.{Text}
use vpnmgr.Tunnel.Bypass.{Route}
use vpnmgr.Tunnel.Killswitch.{Killswitch}
use vpnmgr.Tunnel.Spec.{TunnelSpec}
use vpnmgr.Tunnel.Spec.Interface.{Outcome, done, failed, Backend}

-- `has` tells whether the table holds the route, a world is `Clear` in which the tunnel's interface does
-- not carry it, and a specification is `Apart` whose ranges are not the route's. `Held before t w` is
-- what a tunnel keeps to from its first operation to its end.
pub record Restores {World : Type 0} (b : Backend World) (has : World → Bool)
    (Clear : World → Type 0) (Apart : TunnelSpec → Type 0) : Type 1 where
  pub Fresh : b.Tunnel → Type 0
  pub Held : World → b.Tunnel → World → Type 0
  pub opened :
      (name : Text) (w w' : World) (t : b.Tunnel) → b.open_tunnel name w ≡ (done t, w') → Fresh t
  pub open_keeps :
      (name : Text) (w : World)
      → Clear w
      → (has (b.open_tunnel name w).1 ≡ has w) × Clear (b.open_tunnel name w).1
  pub bypass_fresh : (rs : List Route) (t : b.Tunnel) → Fresh t → Fresh (b.with_bypass rs t)
  pub killswitch_fresh : (ks : Killswitch) (t : b.Tunnel) → Fresh t → Fresh (b.with_killswitch ks t)
  pub up_holds :
      (spec : TunnelSpec) (t : b.Tunnel) (w : World)
      → Apart spec
      → Fresh t
      → Clear w
      → let r = b.up spec t w in Held w r.1 r.2
  pub switch_holds :
      (spec : TunnelSpec) (before : World) (t : b.Tunnel) (w : World)
      → Apart spec
      → Held before t w
      → let r = b.switch_endpoint spec t w in Held before r.1 r.2
  pub down_holds :
      (before : World) (t : b.Tunnel) (w : World)
      → Held before t w
      → let r = b.down t w in Held before r.1 r.2
  pub close_restores :
      (before : World) (t : b.Tunnel) (w : World) → Held before t w → has (b.close t w) ≡ has before

-- What may be asked of a tunnel once it was brought up.
pub data Operation : Type 0 where
  switch_endpoint : TunnelSpec → Operation
  down : Operation

abbrev pub IsApart : (TunnelSpec → Type 0) → Operation → Type 0
IsApart Apart (switch_endpoint spec) = Apart spec
IsApart Apart down = Unit

module _ {World : Type 0} (b : Backend World) where
  -- The operations one after the other, whatever each of them returns, and then the end of the tunnel.
  unfoldable pub operate : List Operation → b.Tunnel → World → World
  operate [] t w = b.close t w
  operate (switch_endpoint spec ∷ rest) t w =
      let (o, t1, w1) = b.switch_endpoint spec t w in operate rest t1 w1
  operate (down ∷ rest) t w = let (o, t1, w1) = b.down t w in operate rest t1 w1

  unfoldable pub opened_session :
      List Route → Killswitch → TunnelSpec → List Operation → Outcome b.Tunnel × World → World
  unfolding operate
  opened_session rs ks spec ops (failed e, w) = w
  opened_session rs ks spec ops (done t, w) =
      let (o, t1, w1) = b.up spec (b.with_killswitch ks (b.with_bypass rs t)) w in operate ops t1 w1

  -- A tunnel from its opening to its end.
  unfoldable pub session :
      List Route → Killswitch → TunnelSpec → List Operation → Text → World → World
  unfolding opened_session
  session rs ks spec ops name w = opened_session rs ks spec ops (b.open_tunnel name w)

  module _ (has : World → Bool) (Clear : World → Type 0) (Apart : TunnelSpec → Type 0)
      (r : Restores b has Clear Apart) where
    has-operate :
        (ops : List Operation) (before : World) (t : b.Tunnel) (w : World)
        → All (IsApart Apart) ops
        → r.Held before t w
        → has (operate ops t w) ≡ has before
    unfolding operate
    has-operate [] before t w apart h = r.close_restores before t w h
    has-operate (switch_endpoint spec ∷ ops) before t w apart h =
        let q = b.switch_endpoint spec t w in
        has-operate ops before q.1 q.2 apart.1 (r.switch_holds spec before t w apart.0 h)
    has-operate (down ∷ ops) before t w apart h =
        let q = b.down t w in has-operate ops before q.1 q.2 apart.1 (r.down_holds before t w h)

    has-opened_session :
        (rs : List Route) (ks : Killswitch) (spec : TunnelSpec) (ops : List Operation) (name : Text)
        (w : World) (o : Outcome b.Tunnel × World)
        → Apart spec
        → All (IsApart Apart) ops
        → Clear o.1
        → b.open_tunnel name w ≡ o
        → has (opened_session rs ks spec ops o) ≡ has o.1
    unfolding opened_session
    has-opened_session rs ks spec ops name w (failed e, w') apart others c h = refl
    has-opened_session rs ks spec ops name w (done t, w') apart others c h =
        let ready = b.with_killswitch ks (b.with_bypass rs t) in
        let q = b.up spec ready w' in
        has-operate ops w' q.1 q.2 others (
          r.up_holds spec ready w' apart
            (r.killswitch_fresh ks (b.with_bypass rs t)
              (r.bypass_fresh rs t (r.opened name w w' t h)))
            c)

    -- Whatever the operations return, the route is there or absent as it was.
    pub has-session :
        (rs : List Route) (ks : Killswitch) (spec : TunnelSpec) (ops : List Operation) (name : Text)
        (w : World)
        → Apart spec
        → All (IsApart Apart) ops
        → Clear w
        → has (session rs ks spec ops name w) ≡ has w
    unfolding session
    has-session rs ks spec ops name w apart others c =
        let (e, d) = r.open_keeps name w c in
        has-opened_session rs ks spec ops name w (b.open_tunnel name w) apart others d refl ∙ e
