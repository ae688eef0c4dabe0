-- ===== src/Core/Wgconf/Items.antt =====
-- A list that was joined with commas is taken apart into its entries.
use vpnmgr.Common.{
  ℕ, ◌≡◌, refl, ◌∙◌, Bool, true, false, Option, none, some, List, [], ◌∷◌, ◌++◌, ◌==◌, any,
  is_empty, sym, ap, All, map,
}
use vpnmgr.Common.Text.{Text, text, trim, trim_start, is_whitespace}
use vpnmgr.Common.Scan.{join, split_at}
use vpnmgr.Common.Scan.Pieces.{starts_solid, trim-solid, split_at-cons, split_at-whole}
use vpnmgr.Core.Net.{IpAddr}
use vpnmgr.Core.Wgconf.{ok, ◌>>=◌}
use vpnmgr.Core.Wgconf.Clean.{breaks, IsItem, any-or}
use vpnmgr.Core.Wgconf.Parse.{parse_items, sort_items, sort_one}

abbrev is_comma : ℕ → Bool
is_comma c = c == b','

not_empty : (t : Text) → starts_solid t ≡ true → is_empty t ≡ false
not_empty [] h = cc
not_empty (c ∷ t) h = refl

-- The blank that stands behind a comma.
abbrev lead : Bool → Text
lead true = b' ' ∷ []
lead false = []

trim-lead : (blank : Bool) (t : Text) → IsItem t → trim (lead blank ++ t) ≡ t
unfolding trim trim_start is_whitespace
trim-lead true t h = trim-solid t h.starts h.ends
trim-lead false t h = trim-solid t h.starts h.ends

lead-no_comma : (blank : Bool) (t : Text) → IsItem t → any is_comma (lead blank ++ t) ≡ false
lead-no_comma true t h = (any-or is_comma breaks t h.plain).0
lead-no_comma false t h = (any-or is_comma breaks t h.plain).0

-- The pieces between the commas: the first entry, and the pieces of the others.
pieces-one :
    (blank : Bool) (t : Text)
    → IsItem t
    → split_at is_comma (lead blank ++ join (text ", ") (t ∷ [])) ≡ (lead blank ++ t) ∷ []
unfolding join
pieces-one blank t h = split_at-whole is_comma (lead blank ++ t) (lead-no_comma blank t h)

pieces-more :
    (blank : Bool) (t u : Text) (us : List Text)
    → IsItem t
    → split_at is_comma (lead blank ++ join (text ", ") (t ∷ u ∷ us))
      ≡ (lead blank ++ t) ∷ split_at is_comma (lead true ++ join (text ", ") (u ∷ us))
unfolding join
pieces-more true t u us h =
    split_at-cons is_comma (lead true ++ t) b',' (b' ' ∷ join (text ", ") (u ∷ us))
      (lead-no_comma true t h) refl
pieces-more false t u us h =
    split_at-cons is_comma t b',' (b' ' ∷ join (text ", ") (u ∷ us)) (lead-no_comma false t h) refl

module _ {A : Type 0} (parse : Text → Option A) (show : A → Text) where
  -- The entry can stand in a list, and is read as what it shows.
  pub record IsEntry (a : A) : Type 0 where
    pub item : IsItem (show a)
    pub read : parse (show a) ≡ some a

  module _ (lineno : ℕ) (display : Text) where
    parse_items-cons :
        (raw : Text) (rest : List Text) (a : A)
        → IsEntry a
        → trim raw ≡ show a
        → parse_items parse lineno display (raw ∷ rest)
          ≡ (parse_items parse lineno display rest >>= λ out. ok (a ∷ out))
    unfolding parse_items
    parse_items-cons raw rest a h e = rw e (rw (not_empty (show a) h.item.starts) (rw h.read refl))

    parse_items-lead :
        (xs : List A) (blank : Bool) (x : A)
        → All IsEntry (x ∷ xs)
        → parse_items parse lineno display
            (split_at is_comma (lead blank ++ join (text ", ") (map show (x ∷ xs))))
          ≡ ok (x ∷ xs)
    parse_items-lead [] blank x h = rw (pieces-one blank (show x) h.0.item) (
        rw (parse_items-cons (lead blank ++ show x) [] x h.0 (trim-lead blank (show x) h.0.item))
          (unfold parse_items in refl))
    parse_items-lead (y ∷ ys) blank x h =
        let rest = split_at is_comma (lead true ++ join (text ", ") (map show (y ∷ ys))) in
        rw (pieces-more blank (show x) (show y) (map show ys) h.0.item) (
          rw
            (parse_items-cons (lead blank ++ show x) rest x h.0 (trim-lead blank (show x) h.0.item))
            (rw (parse_items-lead ys true y h.1) refl))

    pub parse_items-join :
        (x : A) (xs : List A)
        → All IsEntry (x ∷ xs)
        → parse_items parse lineno display
            (split_at is_comma (join (text ", ") (map show (x ∷ xs))))
          ≡ ok (x ∷ xs)
    parse_items-join x xs h = parse_items-lead xs false x h

module _ (parse_ip : Text → Option IpAddr) where
  abbrev sorted : List Text → List IpAddr × List Text
  sorted [] = ([], [])
  sorted (t ∷ ts) = sort_one (parse_ip t) t (sorted ts)

  sort_items-cons :
      (raw : Text) (rest : List Text) (t : Text)
      → IsItem t
      → trim raw ≡ t
      → sort_items parse_ip (raw ∷ rest) ≡ sort_one (parse_ip t) t (sort_items parse_ip rest)
  unfolding sort_items
  sort_items-cons raw rest t h e = rw e (rw (not_empty t h.starts) refl)

  sort_items-lead :
      (ts : List Text) (blank : Bool) (t : Text)
      → All IsItem (t ∷ ts)
      → sort_items parse_ip (split_at is_comma (lead blank ++ join (text ", ") (t ∷ ts)))
        ≡ sorted (t ∷ ts)
  sort_items-lead [] blank t h = rw (pieces-one blank t h.0) (
      rw (sort_items-cons (lead blank ++ t) [] t h.0 (trim-lead blank t h.0))
        (unfold sort_items in refl))
  sort_items-lead (u ∷ us) blank t h =
      let rest = split_at is_comma (lead true ++ join (text ", ") (u ∷ us)) in
      rw (pieces-more blank t u us h.0) (
        rw (sort_items-cons (lead blank ++ t) rest t h.0 (trim-lead blank t h.0))
          (rw (sort_items-lead us true u h.1) refl))

  sorted-domains :
      (domains : List Text) → All (λ d. parse_ip d ≡ none) domains → sorted domains ≡ ([], domains)
  unfolding sort_one
  sorted-domains [] h = refl
  sorted-domains (d ∷ ds) h = rw (h.0, sorted-domains ds h.1) refl

  -- Shown addresses and domains are told apart again.
  sorted-append :
      (show_ip : IpAddr → Text) (ips : List IpAddr) (domains : List Text)
      → All (λ a. parse_ip (show_ip a) ≡ some a) ips
      → All (λ d. parse_ip d ≡ none) domains
      → sorted (map show_ip ips ++ domains) ≡ (ips, domains)
  unfolding sort_one
  sorted-append show_ip [] domains back h = sorted-domains domains h
  sorted-append show_ip (a ∷ ips) domains back h =
      rw (back.0, sorted-append show_ip ips domains back.1 h) refl

  pub sort_items-join :
      (t : Text) (ts : List Text) (show_ip : IpAddr → Text) (ips : List IpAddr)
      (domains : List Text)
      → All IsItem (t ∷ ts)
      → map show_ip ips ++ domains ≡ t ∷ ts
      → All (λ a. parse_ip (show_ip a) ≡ some a) ips
      → All (λ d. parse_ip d ≡ none) domains
      → sort_items parse_ip (split_at is_comma (join (text ", ") (t ∷ ts))) ≡ (ips, domains)
  sort_items-join t ts show_ip ips domains h e back k =
      sort_items-lead ts false t h ∙ (ap sorted (sym e) ∙ sorted-append show_ip ips domains back k)
