-- ===== src/Core/Config/Validate.antt =====
-- `Config::validate`.
pub mod Usable
use vpnmgr.Common.{
  ℕ, Bool, true, false, not, ◌&&◌, ◌||◌, Option, none, some, List, [], ◌∷◌, ◌++◌, map, ltb, ◌==◌,
  if◌then◌else◌, is_empty, is_some_and, retain,
}
use vpnmgr.Common.Text.{Text, trim, lowercase, contains, text_eq, text_le}
use vpnmgr.Common.Sorting.{sort_by}
use vpnmgr.Common.Float.{Float, ◌<f◌, ◌<=f◌, ◌+f◌}
use vpnmgr.Core.Config.{Config, Filters}

-- The messages of `Error::Config`, with what each names.
pub data Problem : Type 0 where
  max_load_meaningless : ℕ → Problem
  countries_in_both : List Text → Problem
  servers_in_both : List Text → Problem
  no_concurrency no_samples no_timeout no_interval target_not_positive : Problem
  accept_fraction_range margin_not_positive threshold_range negative_weights : Problem
  no_weight no_address : Problem

-- The function `lower` of the file.
abbrev pub lower : Text → Text
lower t = lowercase (trim t)

-- A `BTreeSet` is the ordered list of its members, each once.
distinct : List Text → List Text
distinct [] = []
distinct (t ∷ []) = t ∷ []
distinct (t ∷ u ∷ ts) = (if text_eq t u then [] else t ∷ []) ++ distinct (u ∷ ts)

set_of : List Text → List Text
unfolding distinct
set_of ts = distinct (sort_by text_le (map lower ts))

-- The intersection of the two sets.
unfoldable pub in_both : List Text → List Text → List Text
unfolding set_of
in_both white black = retain (λ t. contains t (set_of black)) (set_of white)

module _ {F : Type 0} ⦃fl : Float F⦄ where
  abbrev zero : F
  zero = fl.decimal 0 0

  abbrev in_unit : F → Bool
  in_unit x = (zero <=f x) && (x <=f fl.decimal 1 0)

  -- The checks of numbers, from `probe.concurrency` on.
  check_settings : Config F → Option Problem
  check_settings c =
      if c.probe.concurrency == 0
      then some no_concurrency
      else if c.probe.samples == 0
      then some no_samples
      else if c.probe.timeout_ms == 0
      then some no_timeout
      else if c.autotune.interval_minutes == 0
      then some no_interval
      else if is_some_and (λ t. t <=f zero) c.autotune.target_mbps
      then some target_not_positive
      else if not (in_unit c.autotune.accept_fraction)
      then some accept_fraction_range
      else if c.autotune.headroom_margin <=f zero
      then some margin_not_positive
      else if not (in_unit c.autotune.improvement_threshold)
      then some threshold_range
      else if (c.autotune.weights.rtt <f zero)
          || (c.autotune.weights.load <f zero)
          || (c.autotune.weights.headroom <f zero)
      then some negative_weights
      else if c.autotune.weights.rtt +f c.autotune.weights.load +f c.autotune.weights.headroom
          <=f zero
      then some no_weight
      else if is_empty c.provider.address
      then some no_address
      else none

  -- The checks of the filters come first.
  unfoldable pub validate : Config F → Option Problem
  unfolding check_settings in_both
  validate c =
      let countries = in_both c.filters.country_whitelist c.filters.country_blacklist in
      let servers = in_both c.filters.server_whitelist c.filters.server_blacklist in
      if ltb 200 c.filters.max_load
      then some (max_load_meaningless c.filters.max_load)
      else if not (is_empty countries)
      then some (countries_in_both countries)
      else if not (is_empty servers)
      then some (servers_in_both servers)
      else check_settings c
