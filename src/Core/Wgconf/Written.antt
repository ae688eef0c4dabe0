-- ===== src/Core/Wgconf/Written.antt =====
-- The sections that the parser gathers from a rendered file.
use vpnmgr.Common.{
  ℕ, ◌+◌, ◌≡◌, refl, Bool, true, false, not, ◌&&◌, Option, none, some, List, [], ◌∷◌, ◌++◌, ◌==◌,
  any, arith, map, All,
}
use vpnmgr.Common.Text.{Text, text, text_eq, print_nat, lower_char, trim, trim_start, is_whitespace}
use vpnmgr.Common.Scan.{join, lines, split_once, chomp}
use vpnmgr.Common.Scan.Pieces.{lines-cons, starts_solid, ends_solid}
use vpnmgr.Core.Net.{SocketAddr}
use vpnmgr.Core.Config.{ClientConfig}
use vpnmgr.Core.Key.{Base64}
use vpnmgr.Core.Render.{line, line_if_some, line_if_any, show_endpoint, dns_items}
use vpnmgr.Core.Wgconf.{
  AddrText, show_cidr, ◌>>=◌, Section, set, Reader, in_interface, in_peer, strip_comment,
  section_name,
}
use vpnmgr.Core.Wgconf.Clean.{breaks, IsValue, IsItem, join-IsValue}
use vpnmgr.Core.Wgconf.Parse.{read_line, read_lines, start, assign}
use vpnmgr.Core.Wgconf.Reading.{IsLabel, is_equals, equals, read_lines-line}

-- A key as the renderer writes it: no comment, no `=`, no bracket in front, nothing to trim.
abbrev pub is_key : Text → Bool
is_key [] = false
is_key (c ∷ cs) =
    not (any breaks (c ∷ cs))
    && not (any is_equals (c ∷ cs))
    && not (c == b'[')
    && starts_solid (c ∷ cs)
    && ends_solid (c ∷ cs)

is_key-IsLabel : (c : ℕ) (cs : Text) → is_key (c ∷ cs) ≡ true → IsLabel c cs
is_key-IsLabel c cs h = record {
  plain = ground (arith, h);
  no_equals = ground (arith, h);
  no_bracket = ground (arith, h);
  starts = ground (arith, h);
  ends = ground (arith, h);
}

read_key_line :
    (key value rest : Text) (n : ℕ) (r : Reader)
    → is_key key ≡ true
    → IsValue value
    → read_lines n (lines (line (key ++ equals) value rest)) r
      ≡ (assign r.current (n + 1) key value r >>= λ r'. read_lines (n + 1) (lines rest) r')
read_key_line [] value rest n r label v = cc
read_key_line (c ∷ cs) value rest n r label v =
    read_lines-line c cs value (is_key-IsLabel c cs label) v rest n r

abbrev pub Clean : {A : Type 0} → (A → Text) → Option A → Type 0
Clean show none = Unit {0}
Clean show (some a) = IsValue (show a)

abbrev pub add_some : {A : Type 0} → (A → Text) → Text → Option A → ℕ → Section → Section
add_some show key none n s = s
add_some show key (some a) n s = set key (show a) n s

abbrev pub add_any : Text → List Text → ℕ → Section → Section
add_any key [] n s = s
add_any key (t ∷ ts) n s = set key (join (text ", ") (t ∷ ts)) n s

abbrev pub after_some : {A : Type 0} → Option A → ℕ → ℕ
after_some none n = n
after_some (some a) n = n + 1

abbrev pub after_any : List Text → ℕ → ℕ
after_any [] n = n
after_any (t ∷ ts) n = n + 1

abbrev pub inside : Section → Reader
inside s = record { interface = s; peers = []; current = in_interface }

abbrev pub inside_peer : Section → Section → Reader
inside_peer i s = record { interface = i; peers = s ∷ []; current = in_peer }

module _ (key : Text) (label : is_key key ≡ true) (rest : Text) (n : ℕ) where
  pub interface_line :
      (value : Text) (s : Section)
      → IsValue value
      → read_lines n (lines (line (key ++ equals) value rest)) (inside s)
        ≡ read_lines (n + 1) (lines rest) (inside (set key value (n + 1) s))
  unfolding assign
  interface_line value s v = read_key_line key value rest n (inside s) label v

  pub interface_line_if_some :
      {A : Type 0} (show : A → Text) (o : Option A) (s : Section)
      → Clean show o
      → read_lines n (lines (line_if_some show (key ++ equals) o rest)) (inside s)
        ≡ read_lines (after_some o n) (lines rest) (inside (add_some show key o (n + 1) s))
  interface_line_if_some show none s h = refl
  interface_line_if_some show (some a) s h = interface_line (show a) s h

  pub interface_line_if_any :
      (ts : List Text) (s : Section)
      → All IsItem ts
      → read_lines n (lines (line_if_any (key ++ equals) ts rest)) (inside s)
        ≡ read_lines (after_any ts n) (lines rest) (inside (add_any key ts (n + 1) s))
  interface_line_if_any [] s h = refl
  interface_line_if_any (t ∷ ts) s h =
      interface_line (join (text ", ") (t ∷ ts)) s (join-IsValue t ts h)

  pub peer_line :
      (value : Text) (i s : Section)
      → IsValue value
      → read_lines n (lines (line (key ++ equals) value rest)) (inside_peer i s)
        ≡ read_lines (n + 1) (lines rest) (inside_peer i (set key value (n + 1) s))
  unfolding assign
  peer_line value i s v = read_key_line key value rest n (inside_peer i s) label v

  pub peer_line_if_some :
      {A : Type 0} (show : A → Text) (o : Option A) (i s : Section)
      → Clean show o
      → read_lines n (lines (line_if_some show (key ++ equals) o rest)) (inside_peer i s)
        ≡ read_lines (after_some o n) (lines rest) (inside_peer i (add_some show key o (n + 1) s))
  peer_line_if_some show none i s h = refl
  peer_line_if_some show (some a) i s h = peer_line (show a) i s h

-- The two headers, with the blank line in front of the second.
pub enter_interface :
    (rest : Text)
    → read_lines 0 (lines (line (text "[Interface]") [] rest)) start
      ≡ read_lines 1 (lines rest) (inside [])
unfolding read_lines read_line strip_comment section_name split_once trim trim_start is_whitespace
    chomp text_eq lower_char
enter_interface rest = rw (lines-cons (text "[Interface]") rest refl refl) refl

pub enter_peer :
    (rest : Text) (n : ℕ) (i : Section)
    → read_lines n (lines (line [] [] (line (text "[Peer]") [] rest))) (inside i)
      ≡ read_lines (n + 1 + 1) (lines rest) (inside_peer i [])
unfolding read_lines read_line strip_comment section_name split_once trim trim_start is_whitespace
    chomp text_eq lower_char
enter_peer rest n i =
    rw (lines-cons [] (line (text "[Peer]") [] rest) refl refl)
      (rw (lines-cons (text "[Peer]") rest refl refl) refl)

module _ (b : Base64) (at : AddrText) (c : ClientConfig) where
  abbrev items : List Text
  items = dns_items b at c

  -- The sections, over the numbers of the lines.
  abbrev pub interface_section : ℕ → ℕ → Section
  interface_section dns_at mtu_at = add_some print_nat (text "MTU") c.mtu mtu_at (
      add_any (text "DNS") items dns_at (
        set (text "PrivateKey") (b.encode c.private_key) 3
          (set (text "Address") (join (text ", ") (map (show_cidr at) c.addresses)) 2 [])))

  abbrev pub peer_section : ℕ → ℕ → ℕ → ℕ → ℕ → SocketAddr → Section
  peer_section key_at psk_at endpoint_at allowed_at alive_at endpoint =
      add_some print_nat (text "PersistentKeepalive") c.persistent_keepalive alive_at (
        set (text "AllowedIPs") (join (text ", ") (map (show_cidr at) c.allowed_ips)) allowed_at (
          set (text "Endpoint") (show_endpoint at endpoint) endpoint_at (
            add_some b.encode (text "PresharedKey") c.preshared_key psk_at
              (set (text "PublicKey") (b.encode c.peer_public_key) key_at []))))

  -- Every value that is written is clean.
  pub record IsWritable (endpoint : SocketAddr) : Type 0 where
    pub addresses : IsValue (join (text ", ") (map (show_cidr at) c.addresses))
    pub private_key : IsValue (b.encode c.private_key)
    pub dns : All IsItem items
    pub public_key : IsValue (b.encode c.peer_public_key)
    pub preshared : Clean b.encode c.preshared_key
    pub endpoint_text : IsValue (show_endpoint at endpoint)
    pub allowed : IsValue (join (text ", ") (map (show_cidr at) c.allowed_ips))
