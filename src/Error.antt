-- ===== src/Error.antt =====
-- The errors of the manager: errors.go and the error types of accounts.go, groups.go and
-- group_members.go, with their codes and texts.
use ldap_manager.Base.{ℕ, ◌++◌, Bool, false, List, [], ◌∷◌, Bytes, codes, ltb, ◌==◌, if◌then◌else◌}
use ldap_manager.Base.Int.{pos}
use ldap_manager.Directory.{ServerError, result_code}
use ldap_manager.Text.Decimal.{itoa}

-- The error types with a `Code` of their own.
pub data AppError : Type 0 where
  validation : (message : Bytes) → AppError
  account_already_exists : (username : Bytes) → AppError
  zero_or_multiple_accounts : (username : Bytes) → (count : ℕ) → AppError
  account_validation : (invalid : List Bytes) → AppError
  group_already_exists : (group : Bytes) → AppError
  zero_or_multiple_groups : (group : Bytes) → (count : ℕ) → AppError
  remove_last_group_member : (group : Bytes) → AppError
  no_such_member : (group member : Bytes) → AppError
  member_already_exists : (group member : Bytes) → AppError

-- Any error: one of the above, the server's, that of a conversion, a fixed text, or a text around
-- a cause. A text is kept as its format with its arguments: it is only logged.
pub data Error : Type 0 where
  app : AppError → Error
  server : ServerError → Error
  conversion : Error
  new : (message : Bytes) → Error
  errorf : (format : Bytes) → (arguments : List Bytes) → Error
  wrapf : (format : Bytes) → (arguments : List Bytes) → (cause : Error) → Error

-- The codes of gRPC that the program uses.
pub data Code : Type 0 where
  internal invalid_argument already_exists not_found failed_precondition : Code
  permission_denied unauthenticated : Code

-- `Code`.
unfoldable pub code : AppError → Code
code (validation message) = invalid_argument
code (account_already_exists username) = already_exists
code (zero_or_multiple_accounts username count) = if ltb 1 count then internal else not_found
code (account_validation invalid) = invalid_argument
code (group_already_exists group) = already_exists
code (zero_or_multiple_groups group count) = if ltb 1 count then internal else not_found
code (remove_last_group_member group) = failed_precondition
code (no_such_member group member) = not_found
code (member_already_exists group member) = already_exists

-- What `%v` prints for a list of strings, inside its brackets.
join_words : List Bytes → Bytes
join_words [] = []
join_words (w ∷ []) = w
join_words (w ∷ v ∷ ws) = w ++ (codes " " ++ join_words (v ∷ ws))

-- `Error`; `quote` is what `%q` prints.
module _ (quote : Bytes → Bytes) where
  unfoldable pub error_text : AppError → Bytes
  unfolding join_words
  error_text (validation message) = message
  error_text (account_already_exists username) =
      codes "account with username " ++ (quote username ++ codes " already exists")
  error_text (zero_or_multiple_accounts username count) =
      if ltb 1 count
      then codes "multiple ("
        ++ (itoa (pos count) ++ (codes ") accounts with username " ++ quote username))
      else codes "no account with username " ++ quote username
  error_text (account_validation invalid) =
      codes "invalid account request. missing or invalid: [" ++ (join_words invalid ++ codes "]")
  error_text (group_already_exists group) =
      codes "group " ++ (quote group ++ codes " already exists")
  error_text (zero_or_multiple_groups group count) =
      if ltb 1 count
      then codes "multiple (" ++ (itoa (pos count) ++ (codes ") groups with name " ++ quote group))
      else codes "no group with name " ++ quote group
  error_text (remove_last_group_member group) =
      codes "cannot remove the only remaining group member from group "
      ++ (quote group ++ codes ". consider deleting the group.")
  error_text (no_such_member group member) =
      codes "no such member " ++ (quote member ++ (codes " in group " ++ quote group))
  error_text (member_already_exists group member) =
      codes "member " ++ (quote member ++ (codes " is already a member of group " ++ quote group))

-- `ldap.IsErrorWithCode`.
abbrev pub is_error_with_code : Error → ℕ → Bool
is_error_with_code (server (result_code c)) expected = c == expected
is_error_with_code _ expected = false
