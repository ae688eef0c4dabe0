-- ===== src/Core/Wgconf/Clean.antt =====
-- Text that survives a trip through the file: values without comments, items without commas.
use vpnmgr.Common.{
  ℕ, ◌≡◌, refl, Bool, true, false, ◌||◌, List, [], ◌∷◌, ◌++◌, ◌==◌, any, all, arith, All,
}
use vpnmgr.Common.Text.{Text, text, is_whitespace, print_nat}
use vpnmgr.Common.Scan.{join}
use vpnmgr.Common.Scan.Pieces.{
  is_newline, starts_solid, ends_solid, any-append, starts_solid-append, ends_solid-append,
}
use vpnmgr.Common.Scan.Numbers.{is_digit, print_nat-cons, all-print_nat}
use vpnmgr.Core.Wgconf.{is_comment}

-- What ends a value: the end of the line, or a comment.
abbrev pub breaks : ℕ → Bool
breaks c = is_newline c || is_comment c

abbrev pub parts : ℕ → Bool
parts c = c == b',' || breaks c

pub record IsValue (t : Text) : Type 0 where
  pub plain : any breaks t ≡ false
  pub starts : starts_solid t ≡ true
  pub ends : ends_solid t ≡ true

pub record IsItem (t : Text) : Type 0 where
  pub plain : any parts t ≡ false
  pub starts : starts_solid t ≡ true
  pub ends : ends_solid t ≡ true

pub any-or :
    (p q : ℕ → Bool) (t : Text)
    → any (λ c. p c || q c) t ≡ false
    → (any p t ≡ false) × (any q t ≡ false)
any-or p q [] h = (refl, refl)
any-or p q (c ∷ t) h = ground (arith, any-or p q t)

pub any-all :
    (p q : ℕ → Bool) (t : Text)
    → ((c : ℕ) → p c ≡ true → q c ≡ false)
    → all p t ≡ true
    → any q t ≡ false
any-all p q [] k h = refl
any-all p q (c ∷ t) k h = ground (arith, k c, any-all p q t k)

pub IsItem-IsValue : (t : Text) → IsItem t → IsValue t
IsItem-IsValue t h = record {
  plain = (any-or (λ c. c == b',') breaks t h.plain).1;
  starts = h.starts;
  ends = h.ends;
}

pub join-IsValue :
    (t : Text) (ts : List Text) → All IsItem (t ∷ ts) → IsValue (join (text ", ") (t ∷ ts))
unfolding join
join-IsValue t [] h = IsItem-IsValue t h.0
join-IsValue t (u ∷ us) h =
    let first = IsItem-IsValue t h.0 in
    let rest = join-IsValue u us h.1 in
    let tail = text ", " ++ join (text ", ") (u ∷ us) in
    record {
      plain = ground (arith, any-append breaks t tail, first.plain, rest.plain);
      starts = starts_solid-append t tail first.starts;
      ends =
          ends_solid-append t tail
            (ends_solid-append (text ", ") (join (text ", ") (u ∷ us)) rest.ends);
    }

digit_solid : (c : ℕ) → is_digit c ≡ true → is_whitespace c ≡ false
unfolding is_whitespace
digit_solid c h = ground arith

digit_parts : (c : ℕ) → is_digit c ≡ true → parts c ≡ false
digit_parts c h = ground arith

ends-digits : (c : ℕ) (cs : Text) → all is_digit (c ∷ cs) ≡ true → ends_solid (c ∷ cs) ≡ true
ends-digits c [] h = ground (arith, digit_solid c)
ends-digits c (d ∷ ds) h = ends-digits d ds (ground arith)

pub digits-IsItem : (c : ℕ) (cs : Text) → all is_digit (c ∷ cs) ≡ true → IsItem (c ∷ cs)
digits-IsItem c cs h = record {
  plain = any-all is_digit parts (c ∷ cs) digit_parts h;
  starts = ground (arith, digit_solid c);
  ends = ends-digits c cs h;
}

pub print_nat-IsItem : (n : ℕ) → IsItem (print_nat n)
print_nat-IsItem n =
    let (c, cs, e) = print_nat-cons n in rw e (digits-IsItem c cs (rw e at (all-print_nat n)))

-- An item, a clean piece and an item make an item.
pub IsItem-between :
    (a m b : Text) → IsItem a → any parts m ≡ false → IsItem b → IsItem (a ++ (m ++ b))
IsItem-between a m b ha hm hb = record {
  plain = ground (arith, any-append parts a (m ++ b), any-append parts m b, ha.plain, hb.plain);
  starts = starts_solid-append a (m ++ b) ha.starts;
  ends = ends_solid-append a (m ++ b) (ends_solid-append m b hb.ends);
}
