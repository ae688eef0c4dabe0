-- ===== src/Tunnel/Killswitch/Nft.antt =====
-- Engaging, releasing and reading the kill switch with the nft program: `engage`, `release`, `is_engaged`,
-- `dropped` and `nft` of crates/vpnmgr-tunnel/src/killswitch.rs. What nft does with a script is an argument.
use vpnmgr.Common.{
  ℕ, zero, suc, ◌^◌, Bool, true, false, Option, none, some, [], ◌∷◌, ◌++◌, length, find, first,
  if◌then◌else◌,
}
use vpnmgr.Common.Text.{Text, text, trim, starts_with}
use vpnmgr.Common.Scan.{contains_text, lines, split_whitespace, parse_below}
use vpnmgr.Tunnel.Killswitch.{Killswitch, table_name, script, release_script}
use vpnmgr.Tunnel.Spec.Interface.{Outcome, done, failed}

-- How `nft -f -` ended that was given a script on its input.
pub data Fed : Type 0 where
  not_started : Text → Fed
  not_written : Text → Fed
  ended : (success : Bool) → (stderr : Text) → Fed

-- How `nft list table` ended.
pub data Listed : Type 0 where
  not_run : Listed
  ran : (success : Bool) → (stdout : Text) → Listed

pub record Nft (World : Type 0) : Type 0 where
  pub feed : Text → World → Fed × World
  pub list_table : Text → World → Listed

unfoldable pub nft_result : Fed → Outcome (Unit {0})
nft_result (not_started e) =
    failed (text "could not run nft (" ++ (e ++ text "); the kill switch needs nftables installed"))
nft_result (not_written e) = failed e
nft_result (ended true stderr) = done tt
nft_result (ended false stderr) = failed (text "nft rejected the ruleset: " ++ trim stderr)

abbrev labelled : Text → Outcome (Unit {0}) → Outcome (Unit {0})
labelled operation (done u) = done u
labelled operation (failed e) = failed (operation ++ (text " the kill switch failed: " ++ e))

succeeded : Listed → Bool
succeeded not_run = false
succeeded (ran success stdout) = success

drop : ℕ → Text → Text
drop zero t = t
drop (suc n) [] = []
drop (suc n) (c ∷ cs) = drop n cs

-- What stands behind the first copy of the pattern, and what stands in front of it.
behind : Text → Text → Option Text
unfolding starts_with drop
behind p [] = none
behind p (c ∷ cs) =
    let rest = behind p cs in
    if starts_with p (c ∷ cs) then some (drop (length p) (c ∷ cs)) else rest

in_front : Text → Text → Text
unfolding starts_with
in_front p [] = []
in_front p (c ∷ cs) = let rest = in_front p cs in if starts_with p (c ∷ cs) then [] else c ∷ rest

abbrev and_then : {A B : Type 0} → Option A → (A → Option B) → Option B
and_then none f = none
and_then (some a) f = f a

-- `line.split("packets").nth(1)`, and the first word of it.
packets_in : Text → Option ℕ
unfolding behind in_front split_whitespace parse_below
packets_in line = and_then (behind (text "packets") line) λ after.
    and_then (first (split_whitespace (in_front (text "packets") after)))
      λ word. parse_below (2 ^ 64) word

-- The counter stands in the rule that drops.
unfoldable pub count_in : Listed → Option ℕ
unfolding lines contains_text packets_in
count_in not_run = none
count_in (ran success stdout) =
    and_then (find (contains_text (text "drop")) (lines stdout)) packets_in

unfoldable pub recovery_hint : Text
recovery_hint =
    text "the vpnmgr kill switch is still active, so direct internet access is "
    ++ (text "blocked. Clear it with `vpnmgr killswitch off`, or if the daemon is not "
        ++ (text "running: sudo nft delete table inet " ++ table_name))

module _ {World : Type 0} (n : Nft World) where
  nft : Text → World → Outcome (Unit {0}) × World
  unfolding nft_result
  nft given w = let (r, w1) = n.feed given w in (nft_result r, w1)

  -- The rules replace any earlier copy in one transaction.
  unfoldable pub engage : Killswitch → World → Outcome (Unit {0}) × World
  unfolding nft script
  engage k w = let (r, w1) = nft (script k) w in (labelled (text "engaging") r, w1)

  unfoldable pub release : World → Outcome (Unit {0}) × World
  unfolding nft
  release w = let (r, w1) = nft release_script w in (labelled (text "releasing") r, w1)

  unfoldable pub is_engaged : World → Bool
  unfolding succeeded
  is_engaged w = succeeded (n.list_table table_name w)

  unfoldable pub dropped : World → Option ℕ
  unfolding count_in
  dropped w = count_in (n.list_table table_name w)
