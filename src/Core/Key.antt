-- ===== src/Core/Key.antt =====
-- crates/vpnmgr-core/src/key.rs: WireGuard keys. Base64 is the base64 crate's, an argument here.
use vpnmgr.Common.{ℕ, Option, none, some, List, length, ◌==◌, if◌then◌else◌}
use vpnmgr.Common.Text.{Text, trim}

pub record Base64 : Type 0 where
  pub encode : List ℕ → Text
  pub decode : Text → Option (List ℕ)

abbrev pub key_len : ℕ
key_len = 32

pub data KeyError : Type 0 where
  not_base64 : KeyError
  wrong_length : ℕ → KeyError

pub data KeyResult : Type 0 where
  valid : List ℕ → KeyResult
  invalid : KeyError → KeyResult

-- `raw.try_into()`.
sized : Option (List ℕ) → KeyResult
sized none = invalid not_base64
sized (some raw) = if length raw == key_len then valid raw else invalid (wrong_length (length raw))

-- `PublicKey::from_base64` and `SecretKey::from_base64`.
unfoldable pub from_base64 : Base64 → Text → KeyResult
unfolding sized
from_base64 b s = sized (b.decode (trim s))
