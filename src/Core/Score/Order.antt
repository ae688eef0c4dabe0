-- ===== src/Core/Score/Order.antt =====
-- The order that `rank` of score.rs gives.
use mathlib.Core.List.{Perm}
use mathlib.Core.List.Perm
use vpnmgr.Common.{
  ℕ, ◌<◌, ◌≡◌, refl, sym, ap, ◌⊎◌, true, false, Option, none, some, is_some, List, [], ◌∷◌, map,
  All, InOrder, cons_some, retain, if◌then◌else◌, arith,
}
use vpnmgr.Common.Text.{text_le, text_le_total, text_le_trans}
use vpnmgr.Common.Float.{Float, IsOrdered, ◌<=f◌}
use vpnmgr.Common.Sorting.{IsSorted, sort_by, sort_by-perm, sort_by-All, sort_by-IsSorted}
use vpnmgr.Core.Score.{
  Scoring, Measured, Timed, Scored, timed_at, reachable, score_one, score_all, may_precede, rank,
  fastest,
}

-- The measurement that a ranked server stands for.
abbrev pub measurement : Timed → Measured
measurement t = record {
  server = t.server;
  endpoint = t.endpoint;
  entry = t.entry;
  rtt = some t.rtt;
}

measured_at :
    (m : Measured) (o : Option ℕ) (ts : List Timed) (ms : List Measured)
    → m.rtt ≡ o
    → map measurement ts ≡ ms
    → map measurement (cons_some (timed_at m o) ts) ≡ (if is_some o then m ∷ ms else ms)
measured_at m none ts ms e h = h
measured_at m (some rtt) ts ms e h = rw (h) (
    ap (λ o. record { server = m.server; endpoint = m.endpoint; entry = m.entry; rtt = o } ∷ ms)
      (sym e))

reachable-answered :
    (measured : List Measured)
    → map measurement (reachable measured) ≡ retain (λ m. is_some m.rtt) measured
unfolding reachable
reachable-answered [] = refl
reachable-answered (m ∷ ms) = measured_at m m.rtt (reachable ms) _ refl (reachable-answered ms)

module _ {F : Type 0} ⦃fl : Float F⦄ where
  map-timed :
      (scoring : Scoring F) (quickest : F) (ts : List Timed)
      → map (λ s. s.timed) (map (score_one scoring quickest) ts) ≡ ts
  unfolding score_one
  map-timed scoring quickest [] = refl
  map-timed scoring quickest (t ∷ ts) = rw (map-timed scoring quickest ts)

  -- The ranking holds each measurement that came back once, as it was measured, and none that did not.
  pub rank-perm :
      (measured : List Measured) (scoring : Scoring F)
      → Perm
          (map measurement (map (λ s. s.timed) (rank measured scoring)))
          (retain (λ m. is_some m.rtt) measured)
  unfolding rank score_all
  rank-perm measured scoring = rw (sym (reachable-answered measured)) (
      Perm.map measurement (
        rw map-timed at (
          Perm.map (λ s. s.timed)
            (sort_by-perm may_precede
              (map (score_one scoring (fastest (reachable measured))) (reachable measured))))))

  abbrev pub IsComparable : Scored F → Type 0
  IsComparable s = (s.score <=f s.score) ≡ true

  -- A higher score, or an equal one and a shorter time, or both equal and the name.
  abbrev pub Outranks : Scored F → Scored F → Type 0
  Outranks a b =
      ((a.score <=f b.score) ≡ false)
      ⊎ (((a.score <=f b.score) ≡ true)
          × ((b.score <=f a.score) ≡ true)
          × ((a.timed.rtt < b.timed.rtt)
              ⊎ ((a.timed.rtt ≡ b.timed.rtt)
                  × (text_le a.timed.server.name b.timed.server.name ≡ true))))

  module _ (laws : IsOrdered F) where
    may_precede-total :
        (a b : Scored F)
        → IsComparable a
        → IsComparable b
        → (may_precede a b ≡ true) ⊎ (may_precede b a ≡ true)
    unfolding may_precede
    may_precede-total a b ga gb =
        ground (arith, text_le, text_le_total a.timed.server.name b.timed.server.name)

    may_precede_trans :
        (a b c : Scored F)
        → IsComparable a
        → IsComparable b
        → IsComparable c
        → may_precede a b ≡ true
        → may_precede b c ≡ true
        → may_precede a c ≡ true
    unfolding may_precede
    may_precede_trans a b c ga gb gc h k = ground (
      arith,
      text_le_trans a.timed.server.name b.timed.server.name c.timed.server.name,
      laws.le_trans a.score b.score c.score,
      laws.le_trans b.score c.score a.score,
      laws.le_trans c.score a.score b.score,
      laws.le_trans c.score b.score a.score,
      laws.le_trans b.score a.score c.score,
      laws.le_trans a.score c.score b.score,
      laws.le_total a.score b.score,
      laws.le_total b.score c.score,
      laws.le_total a.score c.score,
    )

    may_precede-Outranks :
        (a b : Scored F) → IsComparable a → IsComparable b → may_precede a b ≡ true → Outranks a b
    unfolding may_precede
    may_precede-Outranks a b ga gb h = ground (arith, laws.le_total a.score b.score)

    sorted-Ordered :
        (xs : List (Scored F)) → All IsComparable xs → IsSorted may_precede xs → InOrder Outranks xs
    sorted-Ordered [] g h = tt
    sorted-Ordered (x ∷ xs) g h = (All-both x xs g.0 g.1 h.0, sorted-Ordered xs g.1 h.1)
      where
        All-both :
            (x : Scored F) (ys : List (Scored F))
            → IsComparable x
            → All IsComparable ys
            → All (λ y. may_precede x y ≡ true) ys
            → All (Outranks x) ys
        All-both x [] gx g h = tt
        All-both x (y ∷ ys) gx g h = (may_precede-Outranks x y gx g.0 h.0, All-both x ys gx g.1 h.1)

    -- Where no score is NaN, a server stands before another only with a higher score, or with an equal
    -- score and a shorter time, or with both equal and by its name.
    pub rank-InOrder :
        (measured : List Measured) (scoring : Scoring F)
        → All IsComparable (score_all scoring (reachable measured))
        → InOrder Outranks (rank measured scoring)
    unfolding rank
    rank-InOrder measured scoring comparable =
        let scored = score_all scoring (reachable measured) in
        sorted-Ordered (sort_by may_precede scored)
          (sort_by-All may_precede IsComparable scored comparable)
          (sort_by-IsSorted may_precede IsComparable may_precede-total may_precede_trans scored
            comparable)
