-- ===== src/Manager/AccountGroup.antt =====
-- `getGroupForAccount` of accounts.go.
use ldap_manager.Base.{Bool, true, false, [], ◌∷◌, Bytes, codes, if◌then◌else◌}
use ldap_manager.Base.Int.{ℤ}
use ldap_manager.Directory.{Env}
use ldap_manager.Error.{Error, app, wrapf, group_already_exists}
use ldap_manager.Exec.{Result, ok, err, Exec, pure, raise, attempt, rescue, ◌>>=◌}
use ldap_manager.Manager.{Manager}
use ldap_manager.Manager.Groups.{new_group}
use ldap_manager.Manager.Lookup.{get_group_gid}

abbrev pub is_group_already_exists : Error → Bool
is_group_already_exists (app (group_already_exists g)) = true
is_group_already_exists _ = false

module _ (env : Env) (m : Manager) where
  open env use {State}

  -- The group that is created when the default group has no number: the default group, or one
  -- named after the user.
  unfoldable pub group_created : Bytes → Result (Unit {0}) → Exec State Bytes
  group_created username (ok x) = pure m.default_user_group
  group_created username (err e) = do
    done ← attempt (new_group env m (record { name = username; members = username ∷ [] }) false)
    nothing ← rescue done (λ e.
        if is_group_already_exists e
        then pure tt
        else raise (wrapf (codes "failed to create group for user %q: %v") (username ∷ []) e))
    pure username

  unfoldable pub group_or_new : Bytes → Result ℤ → Exec State (Bytes × ℤ)
  unfolding group_created
  group_or_new username (ok default_gid) = pure (m.default_user_group, default_gid)
  group_or_new username (err e) = do
    created ←
        attempt
          (new_group env m (record { name = m.default_user_group; members = username ∷ [] }) false)
    group ← group_created username created
    answer ← attempt (get_group_gid env m group)
    gid ←
        rescue answer
          (λ e. raise (wrapf (codes "failed to get GID for group %q: %v") (group ∷ []) e))
    pure (group, gid)

  -- `getGroupForAccount`
  unfoldable pub get_group_for_account : Bytes → Exec State (Bytes × ℤ)
  unfolding group_or_new
  get_group_for_account username = do
    found ← attempt (get_group_gid env m m.default_user_group)
    group_or_new username found
