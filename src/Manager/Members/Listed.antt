-- ===== src/Manager/Members/Listed.antt =====
-- What `GetGroup` returns.
use mathlib.Core.List.{Perm}
use ldap_manager.Base.{◌≡◌, ◌⊎◌, inl, inr, refl, List, Bytes, length, map_option}
use ldap_manager.Directory.{Env}
use ldap_manager.Error.{Error}
use ldap_manager.Exec.{Result, ok, err, pure, ◌>>=◌}
use ldap_manager.Exec.Ensures.{Result-cases}
use ldap_manager.Listing.{less_group, sort_slice, clip}
use ldap_manager.Listing.Sorted.{IsGroupOrder, sort_slice-Perm, sort_slice-IsGroupOrder}
use ldap_manager.Manager.{Manager}
use ldap_manager.Manager.Members.{Group, GetGroupRequest, get_group, get_group_page}
use ldap_manager.Text.Extract.{extract_attribute}

module _ (env : Env) (m : Manager) where
  -- The group, with the names of its members in the order asked for, and cut.
  abbrev pub IsPage : GetGroupRequest → Group → Result Group → Type 0
  IsPage req group r =
      (all : List Bytes) × Perm all
        (map_option (λ dn. extract_attribute env.capture dn m.account_attribute) group.members)
      × IsGroupOrder req.sort_order all
      × (r
          ≡ ok (record {
            name = group.name;
            members = clip req.start req.end all;
            gid = group.gid;
            total = length group.members;
          }))

  -- `GetGroup` fails with the error of `getGroup` for the name, or it succeeds with that group: its
  -- members are the names that `extractAttribute` finds in the members of the group, each as often, in
  -- ascending order, or in descending order for `DESCENDING`, and then cut to the range that was asked
  -- for, as `clip` does; the total is the number of all members.
  pub get_group_page-IsPage :
      (req : GetGroupRequest) (s : env.State)
      → ((group : Group) × ((get_group env m req.name s).0 ≡ ok group)
          × IsPage req group (get_group_page env m req s).0)
        ⊎ ((e : Error) × ((get_group env m req.name s).0 ≡ err e)
            × ((get_group_page env m req s).0 ≡ err e))
  unfolding get_group_page pure ◌>>=◌
  get_group_page-IsPage req s = elim (Result-cases (get_group env m req.name s).0) [
    | inl (group, h) ↦ inl (
      group,
      h,
      (
        sort_slice (less_group req.sort_order) _,
        sort_slice-Perm (less_group req.sort_order) _,
        sort_slice-IsGroupOrder req.sort_order _,
        rw h refl,
      ),
    )
    | inr (e, h) ↦ inr (e, h, rw h refl)
  ]
