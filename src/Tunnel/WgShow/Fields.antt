-- ===== src/Tunnel/WgShow/Fields.antt =====
-- A field that `wg show` printed is found.
use vpnmgr.Common.{
  ℕ, zero, suc, ◌≡◌, refl, ◌∙◌, Bool, true, false, some, List, [], ◌∷◌, ◌++◌, ◌==◌, any, All, arith,
  get_elem?, ap,
}
use vpnmgr.Common.Text.{Text, text, text_eq}
use vpnmgr.Common.Scan.{split_at, join}
use vpnmgr.Common.Scan.Pieces.{
  is_newline, starts_solid, ends_solid, split_at-cons, split_at-whole, lines-cons, chomp-solid,
  trim-solid, any-append, ends_solid-append,
}
use vpnmgr.Tunnel.WgShow.{peer_field, field_of, present}

abbrev is_tab : ℕ → Bool
is_tab c = c == b'\t'

-- A value that the tool prints in a column.
pub record IsField (t : Text) : Type 0 where
  pub no_tab : any is_tab t ≡ false
  pub no_newline : any is_newline t ≡ false
  pub starts : starts_solid t ≡ true
  pub ends : ends_solid t ≡ true
  pub says : text_eq t (text "(none)") ≡ false

split_at-join :
    (t : Text) (ts : List Text)
    → All IsField (t ∷ ts)
    → split_at is_tab (join (text "\t") (t ∷ ts)) ≡ t ∷ ts
unfolding join
split_at-join t [] h = split_at-whole is_tab t h.0.no_tab
split_at-join t (u ∷ us) h =
    split_at-cons is_tab t b'\t' (join (text "\t") (u ∷ us)) h.0.no_tab refl
    ∙ ap (◌∷◌ t) (split_at-join u us h.1)

join-line :
    (t : Text) (ts : List Text)
    → All IsField (t ∷ ts)
    → (any is_newline (join (text "\t") (t ∷ ts)) ≡ false)
      × (ends_solid (join (text "\t") (t ∷ ts)) ≡ true)
unfolding join
join-line t [] h = (h.0.no_newline, h.0.ends)
join-line t (u ∷ us) h =
    let (plain, ends) = join-line u us h.1 in
    let tail = text "\t" ++ join (text "\t") (u ∷ us) in
    (
      ground (arith, any-append is_newline t tail, h.0.no_newline, plain),
      ends_solid-append t tail (ends_solid-append (text "\t") (join (text "\t") (u ∷ us)) ends),
    )

present-field : (t : Text) → IsField t → present (some t) ≡ some t
unfolding present
present-field [] h = absurd (ground (arith, h.starts))
present-field (c ∷ cs) h = rw (trim-solid (c ∷ cs) h.starts h.ends) (rw h.says refl)

present-get : (n : ℕ) (ts : List Text) → All IsField ts → present (get_elem? ts n) ≡ get_elem? ts n
unfolding present
present-get n [] h = refl
present-get zero (t ∷ ts) h = present-field t h.0
present-get (suc n) (t ∷ ts) h = present-get n ts h.1

-- Columns that say something are read back from the first line of the tool's output, and a column
-- that is not there is none, whatever lines follow.
peer_field-join :
    (n : ℕ) (t : Text) (ts : List Text) (rest : Text)
    → All IsField (t ∷ ts)
    → peer_field (join (text "\t") (t ∷ ts) ++ b'\n' ∷ rest) n ≡ get_elem? (t ∷ ts) n
unfolding peer_field field_of
peer_field-join n t ts rest h =
    let line = join (text "\t") (t ∷ ts) in
    let (plain, ends) = join-line t ts h in
    rw (lines-cons line rest plain (chomp-solid line ends))
      (rw (split_at-join t ts h) (present-get n (t ∷ ts) h))
