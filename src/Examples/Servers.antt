-- ===== src/Examples/Servers.antt =====
-- The theorems on the service at concrete inputs.
use ldap_manager.Base.{refl, some, [], ◌∷◌, codes, All, bytes_eq}
use ldap_manager.Base.Int.{pos}
use ldap_manager.Exec.Traffic.{recording, sent_by}
use ldap_manager.Manager.Update.{UpdateAccountRequest}
use ldap_manager.Manager.Update.Safety.{KeepsNumbers}
use ldap_manager.Server.Access.{Refuses, call-Refuses}
use ldap_manager.Listing.{descending}
use ldap_manager.Manager.Groups.{GetGroupListRequest}
use ldap_manager.Manager.Groups.{get_group_list as get_group_list_of}
use ldap_manager.Server.Service.{Serves, call-IsServed}
use ldap_manager.Server.Rpc.{
  call, get_group_list, group_list, delete_group, get_account, update_account,
}
use ldap_manager.Server.Traffic.{IsSearch, call-IsSearch, call-KeepsNumbers}
use ldap_manager.Examples.World.{example_manager, example_env, example_authenticator, user_claims}

abbrev all_groups : GetGroupListRequest
all_groups = record { start = pos 0; end = pos 0; sort_order = descending; filter = [] }

call-Refuses_example : Refuses (
    call example_env example_manager example_authenticator
      (some (codes "ann" ∷ []))
      (delete_group (codes "staff")))
unfolding bytes_eq
call-Refuses_example =
    call-Refuses example_env example_manager example_authenticator (some (codes "ann" ∷ []))
      (delete_group (codes "staff")) refl

call-IsSearch_example : All IsSearch (
    sent_by
      (call
        (recording example_env)
        example_manager
        example_authenticator
        (some (codes "ann" ∷ []))
        (get_account (codes "ann")))
      [])
call-IsSearch_example =
    call-IsSearch example_env example_manager example_authenticator (some (codes "ann" ∷ []))
      (get_account (codes "ann")) [] refl

abbrev pub moves_up : UpdateAccountRequest
moves_up = record {
  username = codes "ann";
  update = record {
    first_name = [];
    last_name = [];
    uid = pos 0;
    gid = pos 2100;
    login_shell = codes "/bin/sh";
    home_directory = [];
    username = [];
    email = [];
    password = [];
  };
}

call-KeepsNumbers_example : All (KeepsNumbers example_manager moves_up) (
    sent_by
      (call
        (recording example_env)
        example_manager
        example_authenticator
        (some (codes "ann" ∷ []))
        (update_account moves_up))
      [])
unfolding example_manager bytes_eq
call-KeepsNumbers_example =
    call-KeepsNumbers example_env example_manager example_authenticator (some (codes "ann" ∷ []))
      moves_up user_claims [] refl refl (refl, refl)

call-IsServed_example :
    Serves
      (λ s. s)
      (get_group_list_of example_env example_manager all_groups)
      group_list
      (call example_env example_manager example_authenticator
        (some (codes "ann" ∷ []))
        (get_group_list all_groups))
unfolding bytes_eq
call-IsServed_example =
    call-IsServed example_env example_manager example_authenticator (some (codes "ann" ∷ []))
      (get_group_list all_groups) user_claims refl refl
