-- ===== src/Examples/Accounts.antt =====
-- The theorems on accounts at concrete inputs.
use ldap_manager.Directory.{entries}
use ldap_manager.Base.{ap, ◌≡◌, ◌↔◌, ◌≤◌, refl, true, false, [], codes, All, bytes_eq, length}
use ldap_manager.Exec.Traffic.{recording, sent_by}
use ldap_manager.Manager.Accounts.{LoginRequest, authenticate_user, delete_account}
use ldap_manager.Manager.Accounts.Deletion.{IsOfUser, delete_account-IsOfUser}
use ldap_manager.Manager.Accounts.Rebound.{IsAdminBound, authenticate_user-IsAdminBound}
use ldap_manager.Manager.Update.{rename_account}
use ldap_manager.Manager.Update.Renaming.{LeavesGroups, IsUnlisted, rename_account-LeavesGroups}
use ldap_manager.Manager.Validation.{valid_email, email_regex}
use ldap_manager.Manager.Validation.Address.{valid_email_iff}
use ldap_manager.Text.Regex.Language.{Denotes}
use ldap_manager.Examples.World.{example_manager, example_env}

abbrev ann_login : LoginRequest
ann_login = record { username = codes "ann"; password = codes "pw" }

authenticate_user-IsAdminBound_example :
    IsAdminBound example_manager
      (sent_by (authenticate_user (recording example_env) example_manager ann_login) [])
authenticate_user-IsAdminBound_example =
    authenticate_user-IsAdminBound example_env example_manager ann_login []

delete_account-IsOfUser_example :
    All
      (IsOfUser example_env example_manager (codes "ann"))
      (sent_by (delete_account (recording example_env) example_manager (codes "ann") false) [])
delete_account-IsOfUser_example =
    delete_account-IsOfUser example_env example_manager (codes "ann") false []

valid_email_iff_example : (valid_email (codes "ann@example.org") ≡ true) ↔ (
    (3 ≤ length (codes "ann@example.org"))
    × (length (codes "ann@example.org") ≤ 254)
    × Denotes email_regex (codes "ann@example.org"))
valid_email_iff_example = valid_email_iff (codes "ann@example.org")

-- No group lists the name as long as there is no group.
no_groups : IsUnlisted example_env example_manager (codes "ann") (codes "eve") (λ s. s ≡ [])
unfolding example_manager bytes_eq
no_groups = record { finds_none = λ s p. ap entries p; lasts = record { step = λ r a s p. p } }

rename_account-LeavesGroups_example :
    All (LeavesGroups example_manager (codes "ann") (codes "eve")) (
      sent_by
        (rename_account (recording example_env) example_manager (codes "ann") (codes "eve"))
        [])
rename_account-LeavesGroups_example =
    rename_account-LeavesGroups example_env example_manager (codes "ann") (codes "eve")
      (λ s. s ≡ []) no_groups [] refl
