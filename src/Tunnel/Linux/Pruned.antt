-- ===== src/Tunnel/Linux/Pruned.antt =====
-- `prune_rule` as the loop that it is: the fuel given is enough.
use vpnmgr.Common.{ℕ, zero, suc, ◌≡◌, refl, Bool, true, List, arith, if◌then◌else◌, ltb, leb}
use vpnmgr.Common.Text.{Text}
use vpnmgr.Tunnel.Device.{Kernel}
use vpnmgr.Tunnel.Linux.{count_rules, prune_rule, prune_all}

module _ {World : Type 0} (k : Kernel World) (v6 : Bool) (matches : Text → Bool)
    (args : List Text) where
  abbrev count : World → ℕ
  count w = count_rules k v6 matches w

  -- A deletion that succeeds takes one copy of the rule away.
  abbrev pub Deletes : Type 0
  Deletes =
      (w : World)
      → (k.rule_del v6 args w).0 ≡ true
      → ltb (count (k.rule_del v6 args w).1) (count w) ≡ true

  prune_rule-enough :
      (n m : ℕ) (w : World)
      → Deletes
      → leb (count w) n ≡ true
      → leb (count w) m ≡ true
      → prune_rule k n v6 matches args w ≡ prune_rule k m v6 matches args w
  unfolding prune_rule
  prune_rule-enough zero zero w deletes hn hm = refl
  prune_rule-enough zero (suc m) w deletes hn hm = ground arith
  prune_rule-enough (suc n) zero w deletes hn hm = ground arith
  prune_rule-enough (suc n) (suc m) w deletes hn hm =
      let w' = (k.rule_del v6 args w).1 in
      ground (arith, deletes w, prune_rule-enough n m w' deletes)

  prune_rule-loop :
      (n : ℕ) (w : World)
      → Deletes
      → count w ≡ n
      → let r = k.rule_del v6 args w in
        prune_rule k n v6 matches args w ≡ (
          if ltb 1 (count w)
          then (if r.0 then prune_rule k (count r.1) v6 matches args r.1 else r.1)
          else w)
  unfolding prune_rule
  prune_rule-loop zero w deletes e = ground arith
  prune_rule-loop (suc n) w deletes e =
      let r = k.rule_del v6 args w in
      ground (arith, deletes w, prune_rule-enough n (count r.1) r.1 deletes)

  -- Where a deletion that succeeds takes a copy of the rule away, pruning is the code's loop: while
  -- there is more than one copy it deletes one and goes on, unless the deletion failed.
  pub prune_all-loop :
      (w : World)
      → Deletes
      → let r = k.rule_del v6 args w in
        prune_all k v6 matches args w
        ≡ (if ltb 1 (count w) then (if r.0 then prune_all k v6 matches args r.1 else r.1) else w)
  unfolding prune_all
  prune_all-loop w deletes = prune_rule-loop (count w) w deletes refl
