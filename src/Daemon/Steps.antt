-- ===== src/Daemon/Steps.antt =====
-- Proving that an operation of the daemon relates the state before and after, step by step.
use vpnmgr.Common.{is_some, ◌≡◌, ◌∙◌, arith}
use vpnmgr.Daemon.Env.{Env, State, Sys, M, Result, ok, err, continue, ◌>>=◌}

abbrev pub St : {F : Type 0} → Env F → Type 0
St {F} env = State F env.backend.Tunnel

module _ {F : Type 0} {env : Env F} where
  -- The operation relates every state to the one that it leaves, whether it succeeds or fails.
  abbrev pub Steps : (St env → St env → Type 0) → {A : Type 0} → M env A → Type 0
  Steps R m = (s : Sys env) → R s.state (m s).1.state

  module _ (R : St env → St env → Type 0) (trans : (s t u : St env) → R s t → R t u → R s u) where
    pub continue_step :
        {A B : Type 0} (s : St env) (r : Result A × Sys env) (f : A → M env B)
        → R s r.1.state
        → ((a : A) → Steps R (f a))
        → R s (continue r f).1.state
    continue_step s (ok a, t) f h k = trans s t.state (f a t).1.state h (k a t)
    continue_step s (err e, t) f h k = h

    pub bind-Steps :
        {A B : Type 0} (m : M env A) (f : A → M env B)
        → Steps R m
        → ((a : A) → Steps R (f a))
        → Steps R (m >>= f)
    bind-Steps m f h k s = continue_step s.state (m s) f (h s) k

abbrev pub IfOk : {A : Type 0} → (A → Type 0) → Result A → Type 0
IfOk Q (ok a) = Q a
IfOk Q (err e) = Unit

module _ {F : Type 0} {env : Env F} where
  -- Whatever the operation returns without an error has the property.
  abbrev pub Yields : {A : Type 0} → (A → Type 0) → M env A → Type 0
  Yields Q m = (s : Sys env) → IfOk Q (m s).0

  continue-Yields :
      {A B : Type 0} (Q : B → Type 0) (r : Result A × Sys env) (f : A → M env B)
      → ((a : A) → Yields Q (f a))
      → IfOk Q (continue r f).0
  continue-Yields Q (ok a, t) f k = k a t
  continue-Yields Q (err e, t) f k = tt

  pub bind-Yields :
      {A B : Type 0} (Q : B → Type 0) (m : M env A) (f : A → M env B)
      → ((a : A) → Yields Q (f a))
      → Yields Q (m >>= f)
  bind-Yields Q m f k s = continue-Yields Q (m s) f k

module _ {F T : Type 0} where
  -- What the measuring operations leave alone.
  pub record Frame (s t : State F T) : Type 0 where
    pub config : t.config ≡ s.config
    pub client : t.client ≡ s.client
    pub tunnel : t.tunnel ≡ s.tunnel
    pub current : t.current ≡ s.current
    pub pending : t.pending ≡ s.pending
    pub dismissed : t.dismissed ≡ s.dismissed

  pub Frame-refl : (s : State F T) → Frame s s
  Frame-refl s = ground arith

  pub Frame-trans : (s t u : State F T) → Frame s t → Frame t u → Frame s u
  Frame-trans s t u h k = ground arith

  -- What every move of the connection leaves alone, and that a tunnel goes with a connection.
  pub record Travels (s t : State F T) : Type 0 where
    pub config : t.config ≡ s.config
    pub client : t.client ≡ s.client
    pub pending : t.pending ≡ s.pending
    pub paired : is_some s.tunnel ≡ is_some s.current → is_some t.tunnel ≡ is_some t.current

  pub Frame-Travels : (s t : State F T) → Frame s t → Travels s t
  Frame-Travels s t h = record {
    config = h.config;
    client = h.client;
    pending = h.pending;
    paired = λ k. rw (h.tunnel, h.current) k;
  }

  pub Travels-refl : (s : State F T) → Travels s s
  Travels-refl s = Frame-Travels s s (Frame-refl s)

  pub Travels-trans : (s t u : State F T) → Travels s t → Travels t u → Travels s u
  Travels-trans s t u h k = record {
    config = k.config ∙ h.config;
    client = k.client ∙ h.client;
    pending = k.pending ∙ h.pending;
    paired = λ e. k.paired (h.paired e);
  }

module _ {F : Type 0} (env : Env F) where
  abbrev pub Travelling : {A : Type 0} → M env A → Type 0
  Travelling m = Steps {env = env} Travels m

  pub next-Travelling :
      {A B : Type 0} (m : M env A) (f : A → M env B)
      → Travelling m
      → ((a : A) → Travelling (f a))
      → Travelling (m >>= f)
  next-Travelling m f h k = bind-Steps {env = env} Travels Travels-trans m f h k

  pub framed : {A : Type 0} (m : M env A) → Steps {env = env} Frame m → Travelling m
  framed m h s = Frame-Travels s.state (m s).1.state (h s)
