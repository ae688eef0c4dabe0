-- ===== src/Daemon/Handle/Reached.antt =====
-- What the daemon can come to by handling requests and running tuning passes.
use vpnmgr.Common.Float.{Float}
use vpnmgr.Daemon.Env.{Env, Sys}
use vpnmgr.Daemon.Handle.{Request, handle, scheduled}

module _ {F : Type 0} ⦃fl : Float F⦄ (env : Env F) where
  -- Between two steps the world may change in any way.
  pub data Reached (s : Sys env) : Sys env → Type 0 where
    start : Reached s s
    request : {t : Sys env} → (r : Request) → Reached s t → Reached s (handle env r t).1
    pass : {t : Sys env} → Reached s t → Reached s (scheduled env t).1
    outside : {t : Sys env} → (w : env.World) → Reached s t → Reached s (record t { world = w })
