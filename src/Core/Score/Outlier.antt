-- ===== src/Core/Score/Outlier.antt =====
-- A server's score depends on itself and on the fastest: score.rs, `rank`.
use vpnmgr.Common.{◌≡◌, refl, ap, ◌∙◌, true, List, [], ◌∷◌, ◌++◌, map, arith}
use vpnmgr.Common.Float.{Float, IsOrdered, minimum, ◌<=f◌}
use vpnmgr.Core.Score.{Scoring, Timed, Scored, micros, fastest_from, fastest, score_one, score_all}

module _ {F : Type 0} ⦃fl : Float F⦄ where
  fastest_from-append :
      (acc : F) (ts us : List Timed)
      → fastest_from acc (ts ++ us) ≡ fastest_from (fastest_from acc ts) us
  unfolding fastest_from
  fastest_from-append acc [] us = refl
  fastest_from-append acc (t ∷ ts) us = fastest_from-append (minimum acc (micros t.rtt)) ts us

  map-append_one :
      (f : Timed → Scored F) (ts : List Timed) (t : Timed)
      → map f (ts ++ t ∷ []) ≡ map f ts ++ f t ∷ []
  map-append_one f [] t = refl
  map-append_one f (u ∷ ts) t = rw (map-append_one f ts t)

  module _ (laws : IsOrdered F) where
    minimum_left : (a b : F) → (a <=f b) ≡ true → minimum a b ≡ a
    minimum_left a b h = ground (arith, laws.refl_of_le a b)

    -- A server no faster than the fastest so far changes no score when it joins the set.
    pub score_all-outlier :
        (scoring : Scoring F) (ts : List Timed) (slow : Timed)
        → fl.le (fastest ts) (micros slow.rtt) ≡ true
        → score_all scoring (ts ++ slow ∷ [])
          ≡ score_all scoring ts ++ score_one scoring (fastest ts) slow ∷ []
    unfolding score_all
    score_all-outlier scoring ts slow h =
        ap (λ q. map (score_one scoring q) (ts ++ slow ∷ [])) same
        ∙ map-append_one (score_one scoring (fastest ts)) ts slow
      where
        same : ◌≡◌ {A = F} (fastest (ts ++ slow ∷ [])) (fastest ts)
        same =
            fastest_from-append fl.infinity ts (slow ∷ [])
            ∙ unfold fastest_from in minimum_left (fastest ts) (micros slow.rtt) h
