-- ===== src/Examples/Lists.antt =====
-- The theorems on the lists of users, groups and members at concrete inputs.
use ldap_manager.Base.{◌≡◌, ◌⊎◌, [], ◌∷◌, codes}
use ldap_manager.Base.Int.{pos}
use ldap_manager.Error.{Error}
use ldap_manager.Exec.{ok, err}
use ldap_manager.Listing.{descending, ascending}
use ldap_manager.Manager.Accounts.{GetUserListRequest, get_user_list}
use ldap_manager.Manager.Accounts.Listed as UsersListed
use ldap_manager.Manager.Accounts.Listed.{get_user_list-Answers}
use ldap_manager.Manager.Groups.{GetGroupListRequest, get_group_list}
use ldap_manager.Manager.Groups.Listed as GroupsListed
use ldap_manager.Manager.Groups.Listed.{get_group_list-Answers}
use ldap_manager.Manager.Members.{Group, GetGroupRequest, get_group, get_group_page}
use ldap_manager.Manager.Members.Listed.{IsPage, get_group_page-IsPage}
use ldap_manager.Examples.World.{example_manager, example_env, staff}

abbrev groups_request : GetGroupListRequest
groups_request = record { start = pos 0; end = pos 0; sort_order = descending; filter = [] }

get_group_list-Answers_example :
    GroupsListed.Answers example_env example_manager groups_request
      (staff ∷ [])
      (get_group_list example_env example_manager groups_request (staff ∷ [])).0
get_group_list-Answers_example =
    get_group_list-Answers example_env example_manager groups_request (staff ∷ [])

abbrev users_request : GetUserListRequest
users_request = record {
  start = pos 0;
  end = pos 0;
  sort_key = [];
  sort_order = ascending;
  filter = [];
}

get_user_list-Answers_example :
    UsersListed.Answers example_env example_manager users_request []
      (get_user_list example_env example_manager users_request []).0
get_user_list-Answers_example = get_user_list-Answers example_env example_manager users_request []

abbrev staff_request : GetGroupRequest
staff_request = record { start = pos 0; end = pos 0; sort_order = ascending; name = codes "staff" }

get_group_page-IsPage_example :
    ((group : Group) × ((get_group example_env example_manager (codes "staff") (staff ∷ [])).0
        ≡ ok group)
      × IsPage example_env example_manager staff_request group
          (get_group_page example_env example_manager staff_request (staff ∷ [])).0)
    ⊎ ((e : Error) × ((get_group example_env example_manager (codes "staff") (staff ∷ [])).0
          ≡ err e)
        × ((get_group_page example_env example_manager staff_request (staff ∷ [])).0 ≡ err e))
get_group_page-IsPage_example =
    get_group_page-IsPage example_env example_manager staff_request (staff ∷ [])
