-- ===== src/Daemon/Select/Wait.antt =====
-- The wait for a candidate's handshake ends, and what its answer means.
use vpnmgr.Common.{
  ℕ, zero, suc, ◌+◌, ◌*◌, ◌/◌, ◌≤◌, ◌≡◌, refl, Bool, true, false, Option, ltb, Bool-cases, inl, inr,
  arith,
}
use vpnmgr.Daemon.Env.{Env, Sys, ok}
use vpnmgr.Daemon.Select.{poll_interval, carrying, wait_loop, wait_until_carrying}

module _ {F : Type 0} (env : Env F) where
  -- Sleeping takes at least as long as it is asked to.
  abbrev pub Sleeps : Type 0
  Sleeps = (d : ℕ) (w : env.World) → env.now w + d ≤ env.now (env.sleep d w)

  -- A yes comes with a handshake after the start, a no at the deadline.
  abbrev pub IsAnswer : ℕ → ℕ → Option env.backend.Tunnel → Bool → env.World → Type 0
  IsAnswer since deadline t true w = carrying env since t w ≡ true
  IsAnswer since deadline t false w = deadline ≤ env.now w

  module _ (sleeps : Sleeps) where
    wait_loop-IsAnswer :
        (rounds since deadline : ℕ) (t : Option env.backend.Tunnel) (w : env.World)
        → deadline ≤ env.now w + rounds * poll_interval
        → let r = wait_loop env rounds since deadline t w in IsAnswer since deadline t r.0 r.1
    unfolding wait_loop
    wait_loop-IsAnswer zero since deadline t w h = omega (arith, h)
    wait_loop-IsAnswer (suc rounds) since deadline t w h =
        elim (Bool-cases (ltb (env.now w) deadline)) [
          | inl e ↦ elim (Bool-cases (carrying env since t w)) [
            | inl k ↦ rw (e, k) k
            | inr k ↦
                rw (e, k)
                  (wait_loop-IsAnswer rounds since deadline t (env.sleep poll_interval w)
                    (omega (arith, h, sleeps poll_interval w)))
          ]
          | inr e ↦ rw e (ground (arith, e))
        ]

    -- The wait gives an answer: yes, with the tunnel's last handshake after the start of the attempt, or
    -- no, and then the whole timeout has passed. The rounds counted for it suffice.
    pub wait_until_carrying_lem :
        (since timeout : ℕ) (s : Sys env)
        → (answer : Bool) × ((wait_until_carrying env since timeout s).0 ≡ ok answer)
          × IsAnswer since
              (env.now s.world + timeout)
              s.state.tunnel
              answer
              (wait_until_carrying env since timeout s).1.world
    unfolding wait_until_carrying
    wait_until_carrying_lem since timeout s = (
      _,
      refl,
      wait_loop-IsAnswer (suc (timeout / poll_interval)) since (env.now s.world + timeout)
          s.state.tunnel s.world (omega arith),
    )
