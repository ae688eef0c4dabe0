-- ===== src/Core/Filter.antt =====
-- crates/vpnmgr-core/src/filter.rs: narrowing the fleet by the provider's metadata. A `HashSet` is the
-- list of its members, of which the code asks only `contains` and `is_empty`.
pub mod Eligible
pub mod Partition
pub mod Summary
use vpnmgr.Common.{
  ℕ, ◌+◌, Bool, true, false, not, ◌&&◌, ◌||◌, Option, none, some, List, [], ◌∷◌, ◌++◌, map, ltb,
  leb, ◌==◌, if◌then◌else◌, is_empty, is_none, retain,
}
use vpnmgr.Common.Text.{Text, text, trim, lowercase, contains, text_eq, text_le, print_nat}
use vpnmgr.Common.Sorting.{sort_by}
use vpnmgr.Core.Airvpn.{Server, ServerList, is_healthy}
use vpnmgr.Core.Config.{Filters}

pub data Rejection : Type 0 where
  unhealthy : Option Text → Rejection
  country_not_whitelisted country_blacklisted : Rejection
  server_not_whitelisted server_blacklisted : Rejection
  load_too_high : ℕ → ℕ → Rejection

pub record Ruleset : Type 0 where
  pub country_white : List Text
  pub country_black : List Text
  pub server_white : List Text
  pub server_black : List Text
  pub max_load : ℕ

-- The form in which names and countries are compared.
abbrev pub fold : Text → Text
fold t = lowercase (trim t)

unfoldable pub normalised : List Text → List Text
normalised values = retain (λ v. not (is_empty v)) (map fold values)

unfoldable pub ruleset_of : Filters → Ruleset
unfolding normalised
ruleset_of f = record {
  country_white = normalised f.country_whitelist;
  country_black = normalised f.country_blacklist;
  server_white = normalised f.server_whitelist;
  server_black = normalised f.server_blacklist;
  max_load = f.max_load;
}

unfoldable pub judge : Ruleset → Text → Text → ℕ → Option Rejection
judge r name country_code load =
    if contains (fold name) r.server_black
    then some server_blacklisted
    else if contains (fold country_code) r.country_black
    then some country_blacklisted
    else if not (is_empty r.server_white) && not (contains (fold name) r.server_white)
    then some server_not_whitelisted
    else if not (is_empty r.country_white) && not (contains (fold country_code) r.country_white)
    then some country_not_whitelisted
    else if ltb r.max_load load
    then some (load_too_high load r.max_load)
    else none

unfoldable pub accepts : Ruleset → Text → Text → ℕ → Bool
accepts r name country_code load = is_none (judge r name country_code load)

pub record Selection : Type 0 where
  pub accepted : List Server
  pub rejected : List (Server × Rejection)

-- Health comes first.
unfoldable pub reason_of : Ruleset → Server → Option Rejection
reason_of r s =
    if not (is_healthy s) then some (unhealthy s.warning) else judge r s.name s.country_code s.load

push_onto : Selection → Server → Option Rejection → Selection
push_onto acc s (some why) = record acc { rejected = acc.rejected ++ (s, why) ∷ [] }
push_onto acc s none = record acc { accepted = acc.accepted ++ s ∷ [] }

-- The loop of `apply`, over what it has pushed so far.
apply_onto : Ruleset → Selection → List Server → Selection
apply_onto r acc [] = acc
apply_onto r acc (s ∷ rest) = apply_onto r (push_onto acc s (reason_of r s)) rest

unfoldable pub apply : ServerList → Filters → Selection
unfolding apply_onto push_onto
apply list filters =
    apply_onto (ruleset_of filters) (record { accepted = []; rejected = [] }) list.servers

unfoldable pub show : Rejection → Text
show (unhealthy (some w)) = text "unhealthy (" ++ (w ++ text ")")
show (unhealthy none) = text "unhealthy"
show country_not_whitelisted = text "country not in whitelist"
show country_blacklisted = text "country blacklisted"
show server_not_whitelisted = text "server not in whitelist"
show server_blacklisted = text "server blacklisted"
show (load_too_high load max_load) =
    text "load "
    ++ (print_nat load ++ (text "% exceeds max_load " ++ (print_nat max_load ++ text "%")))

-- The variants that carry a value share one label.
unfoldable pub label : Rejection → Text
unfolding show
label (unhealthy w) = text "unhealthy"
label (load_too_high load max_load) =
    text "load above max_load " ++ (print_nat max_load ++ text "%")
label other = show other

-- `*counts.entry(label).or_default() += 1`.
unfoldable pub count_label : Text → List (Text × ℕ) → List (Text × ℕ)
count_label l [] = (l, 1) ∷ []
count_label l ((k, n) ∷ rest) =
    if text_eq k l then (k, n + 1) ∷ rest else (k, n) ∷ count_label l rest

unfoldable pub count_labels : List (Text × ℕ) → List (Server × Rejection) → List (Text × ℕ)
unfolding count_label
count_labels counts [] = counts
count_labels counts ((s, why) ∷ rest) = count_labels (count_label (label why) counts) rest

-- Most common first, then by label.
abbrev pub count_le : Text × ℕ → Text × ℕ → Bool
count_le a b = ltb b.1 a.1 || (a.1 == b.1 && text_le a.0 b.0)

unfoldable pub rejection_summary : Selection → List (Text × ℕ)
unfolding count_labels
rejection_summary s = sort_by count_le (count_labels [] s.rejected)
