-- ===== src/Tunnel/Command.antt =====
-- The command runner of crates/vpnmgr-tunnel/src/windows.rs, and the Windows system that the tunnel and
-- the kill switch work on: processes, files and the environment are the record System.
use vpnmgr.Common.{
  ℕ, ◌+◌, Bool, true, false, ◌||◌, Option, none, some, List, [], ◌∷◌, ◌++◌, ◌==◌, if◌then◌else◌,
  is_empty,
}
use vpnmgr.Common.Text.{Text, text, trim, lowercase, print_nat}
use vpnmgr.Common.Scan.{contains_text}
use vpnmgr.Tunnel.Spec.Interface.{Outcome}

-- `negsuc n` is -(n + 1).
pub data ℤ : Type 0 where
  pos : ℕ → ℤ
  negsuc : ℕ → ℤ

abbrev pub is_five : ℤ → Bool
is_five (pos n) = n == 5
is_five (negsuc n) = false

unfoldable pub show_int : ℤ → Text
show_int (pos n) = print_nat n
show_int (negsuc n) = text "-" ++ print_nat (n + 1)

-- What `Command::output` gives: no process, or its status and what it wrote.
pub data Spawned : Type 0 where
  not_started : Text → Spawned
  exited : (success : Bool) → (code : Option ℤ) → (stdout stderr : Text) → Spawned

pub data Removed : Type 0 where
  removed not_found : Removed
  not_removed : Text → Removed

pub record System (World : Type 0) : Type 0 where
  pub program_data : Option Text
  pub exists : Text → World → Bool
  pub spawn : Text → List Text → World → Spawned × World
  pub create_dir_all : Text → World → Outcome (Unit {0}) × World
  pub write_file : Text → Text → World → Outcome (Unit {0}) × World
  pub remove_file : Text → World → Removed × World

pub record CommandError : Type 0 where
  pub program : Text
  pub status : Option ℤ
  pub stderr : Text

pub data Ran : Type 0 where
  output : Text → Ran
  error : CommandError → Ran

-- `run`, on what the process did.
unfoldable pub ran : Text → Spawned → Ran
ran program (not_started e) = error (record { program = program; status = none; stderr = e })
ran program (exited true code stdout stderr) = output stdout
ran program (exited false code stdout stderr) =
    error (record { program = program; status = code; stderr = stderr })

-- `CommandError::denied`: a privilege problem rather than a real fault.
abbrev is_code_five : Option ℤ → Bool
is_code_five none = false
is_code_five (some c) = is_five c

unfoldable pub denied : CommandError → Bool
denied e =
    let s = lowercase e.stderr in
    contains_text (text "access is denied") s
    || contains_text (text "administrator") s
    || contains_text (text "elevat") s
    || is_code_five e.status

abbrev show_status : Option ℤ → Text
show_status none = text " did not run"
show_status (some code) = text " exited " ++ show_int code

abbrev show_stderr : Text → Text
show_stderr s = if is_empty s then [] else text ": " ++ s

-- `CommandError`'s `Display`.
unfoldable pub show_error : CommandError → Text
unfolding show_int
show_error e = e.program ++ (show_status e.status ++ show_stderr (trim e.stderr))

-- `Path::join`, for a name that is not a path of its own.
abbrev ends_with_separator : Text → Bool
ends_with_separator [] = false
ends_with_separator (c ∷ []) = c == b'\\' || c == b'/'
ends_with_separator (c ∷ d ∷ cs) = ends_with_separator (d ∷ cs)

unfoldable pub join_path : Text → Text → Text
join_path base name =
    if is_empty base || ends_with_separator base then base ++ name else base ++ b'\\' ∷ name

or_default : Option Text → Text
or_default none = text "C:\\ProgramData"
or_default (some base) = base

-- `config_dir`.
unfoldable pub config_dir : {World : Type 0} → System World → Text
unfolding join_path or_default
config_dir s = join_path (or_default s.program_data) (text "vpnmgr")
