-- ===== src/Core/Wgconf/Reading.antt =====
-- How one written line is read: the setting it makes, in the section that is current.
use vpnmgr.Common.{
  ℕ, ◌+◌, ◌≡◌, refl, sym, ap, ◌∙◌, Bool, true, false, none, some, List, [], ◌∷◌, ◌++◌, ◌==◌, any,
  arith,
}
use mathlib.Core.List.{append_assoc, reverse, reverse-append, reverse-reverse}
use vpnmgr.Common.Text.{Text, text, trim, trim_start, is_whitespace}
use vpnmgr.Common.Scan.{split_once, lines}
use vpnmgr.Common.Scan.Pieces.{
  is_newline, starts_solid, ends_solid, any-append, ends_solid-append, trim-solid, split_once-lacks,
  split_once-cons, lines-cons, chomp-solid, trim_start-solid, starts_solid-reverse,
  starts_solid-append,
}
use vpnmgr.Core.Wgconf.{Parsed, ◌>>=◌, Reader, is_comment, strip_comment, section_name}
use vpnmgr.Core.Render.{line}
use vpnmgr.Core.Wgconf.Clean.{breaks, IsValue, any-or}
use vpnmgr.Core.Wgconf.Parse.{read_line, read_lines, assign}

abbrev pub is_equals : ℕ → Bool
is_equals c = c == b'='

-- A key as the renderer writes it: no comment, no `=`, no bracket in front, nothing to trim.
pub record IsLabel (c : ℕ) (cs : Text) : Type 0 where
  pub plain : any breaks (c ∷ cs) ≡ false
  pub no_equals : any is_equals (c ∷ cs) ≡ false
  pub no_bracket : (c == b'[') ≡ false
  pub starts : starts_solid (c ∷ cs) ≡ true
  pub ends : ends_solid (c ∷ cs) ≡ true

abbrev pub equals : Text
equals = text " = "

strip_comment-plain : (t : Text) → any breaks t ≡ false → strip_comment t ≡ t
unfolding strip_comment
strip_comment-plain t h =
    rw (split_once-lacks is_comment t (any-or is_newline is_comment t h).1) refl

section_name-none : (c : ℕ) (cs : Text) → (c == b'[') ≡ false → section_name (c ∷ cs) ≡ none
unfolding section_name
section_name-none c cs h = rw h refl

trim_blank : (t : Text) → starts_solid t ≡ true → ends_solid t ≡ true → trim (t ++ b' ' ∷ []) ≡ t
unfolding trim trim_start is_whitespace
trim_blank t h k = rw (trim_start-solid (t ++ b' ' ∷ []) (starts_solid-append t (b' ' ∷ []) h)) (
    rw (reverse-append t (b' ' ∷ []))
      (rw (trim_start-solid (reverse t) (starts_solid-reverse t k)) (reverse-reverse t)))

blank_trim : (t : Text) → starts_solid t ≡ true → ends_solid t ≡ true → trim (b' ' ∷ t) ≡ t
unfolding trim trim_start is_whitespace
blank_trim t h k = trim-solid t h k

module _ (c : ℕ) (cs value : Text) (label : IsLabel c cs) (v : IsValue value) where
  abbrev whole : Text
  whole = (c ∷ cs) ++ (equals ++ value)

  whole-plain : any breaks whole ≡ false
  whole-plain = ground (arith, any-append breaks (c ∷ cs) (equals ++ value), label.plain, v.plain)

  whole-ends : ends_solid whole ≡ true
  whole-ends = ends_solid-append (c ∷ cs) (equals ++ value) (ends_solid-append equals value v.ends)

  split-whole : split_once is_equals whole ≡ some ((c ∷ cs) ++ b' ' ∷ [], b' ' ∷ value)
  split-whole = rw (append_assoc (c ∷ cs) (b' ' ∷ []) (b'=' ∷ b' ' ∷ value)) at (
      split_once-cons is_equals ((c ∷ cs) ++ b' ' ∷ []) b'=' (b' ' ∷ value)
        (ground (arith, any-append is_equals (c ∷ cs) (b' ' ∷ []), label.no_equals)) refl)

  pub read_line-setting :
      (n : ℕ) (r : Reader) → read_line n whole r ≡ assign r.current n (c ∷ cs) value r
  unfolding read_line
  read_line-setting n r = rw (strip_comment-plain whole whole-plain) (
      rw (trim-solid whole label.starts whole-ends) (
        rw (section_name-none c (cs ++ (equals ++ value)) label.no_bracket) (
          rw split-whole (
            rw (trim_blank (c ∷ cs) label.starts label.ends)
              (rw (blank_trim value v.starts v.ends) refl)))))

  -- A written line and what follows it.
  pub read_lines-line :
      (rest : Text) (n : ℕ) (r : Reader)
      → read_lines n (lines (line ((c ∷ cs) ++ equals) value rest)) r
        ≡ (assign r.current (n + 1) (c ∷ cs) value r >>= λ r'. read_lines (n + 1) (lines rest) r')
  unfolding read_lines
  read_lines-line rest n r =
      let glued : line ((c ∷ cs) ++ equals) value rest ≡ whole ++ b'\n' ∷ rest =
        append_assoc (c ∷ cs) equals (value ++ b'\n' ∷ rest)
        ∙ (ap (◌++◌ (c ∷ cs)) (sym (append_assoc equals value (b'\n' ∷ rest)))
            ∙ sym (append_assoc (c ∷ cs) (equals ++ value) (b'\n' ∷ rest))) in
      let cut =
        lines-cons whole rest (any-or is_newline is_comment whole whole-plain).0
          (chomp-solid whole whole-ends) in
      ap (λ (t : Text). read_lines n (lines t) r) glued
      ∙ (ap (λ (ls : List Text). read_lines n ls r) cut
          ∙ ap (λ (m : Parsed Reader). m >>= λ r'. read_lines (n + 1) (lines rest) r')
              (read_line-setting (n + 1) r))
