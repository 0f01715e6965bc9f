-- ===== src/Semantics/Arguments.antt =====
-- What an argument vector that `buildArguments` of argv.go takes from EXECVE records went through.
use aesirguard_audit.Base.{
  true, List, [], ◌∷◌, Option, none, some, ◌≡◌, ◌⊎◌, Bytes, bytes_equality, length, All,
}
use aesirguard_audit.Record.{Record, Field}
use aesirguard_audit.Parser.Text.{valid_utf8}
use aesirguard_audit.Semantics.Argv.{ArgState, Arguments, execve}
use aesirguard_audit.Semantics.Recorded.{Recorded}

-- Text in UTF-8.
abbrev pub AreText : List Bytes → Type 0
AreText = All (λ (v : Bytes). valid_utf8 v ≡ true)

-- Is it an argument vector of EXECVE records?
abbrev execve_of : Arguments → Option (List Bytes)
execve_of (execve argv) = some argv
execve_of _ = none

-- What stands behind an argument vector from EXECVE records.
abbrev IsChecked : ArgState → List Bytes → Type 0
IsChecked s argv = (s.valid ≡ true) × (s.argc ≡ some (length argv)) × AreText argv

-- One of the fields.
abbrev pub IsIn : Field → List Field → Type 0
IsIn f [] = ⊥
IsIn f (g ∷ gs) = (g ≡ f) ⊎ IsIn f gs
