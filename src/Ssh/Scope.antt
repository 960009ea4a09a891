-- ===== src/Ssh/Scope.antt =====
-- v2/simulator/ssh/scope.go: the part of the command line behind the module's name.
use flightsim.Prelude.{ℕ, List, [], ◌∷◌, Option, none, some, not, if◌then◌else◌}
use flightsim.Prelude.Bytes.{Bytes, bytes_eq, contains_byte}

-- `invalid_size` wraps the error of the size's parser.
pub data ScopeError : Type 0 where
  invalid_size : Bytes → ScopeError
  invalid_command_line : Bytes → ScopeError

-- The targets, the send size and the error, as Go returns them.
pub record Scope : Type 0 where
  pub targets : List Bytes
  pub send_size : ℕ
  pub err : Option ScopeError

abbrev refused_scope : ScopeError → Scope
refused_scope e = record { targets = [] ∷ []; send_size = 0; err = some e }

abbrev parsed_scope : Bytes → List Bytes → Option ℕ → Scope
parsed_scope scope targets none = refused_scope (invalid_size scope)
parsed_scope scope targets (some size) = record { targets = targets; send_size = size; err = none }

-- `parse_size` is `bytesize.Parse` of github.com/inhies/go-bytesize, `none` for its error.
unfoldable pub parse_scope : (Bytes → Option ℕ) → Bytes → List Bytes → ℕ → Scope
unfolding bytes_eq contains_byte
parse_scope parse_size scope default_targets default_send_size =
    if bytes_eq scope []
    then record { targets = default_targets; send_size = default_send_size; err = none }
    else if not (contains_byte b':' scope)
    then parsed_scope scope default_targets (parse_size scope)
    else refused_scope (invalid_command_line scope)
