-- ===== src/Examples/Numberings.antt =====
-- A directory server that numbers groups, and two new groups on it.
use ldap_manager.Base.{
  ◌≡◌, refl, Bool, false, List, [], ◌∷◌, ◌++◌, arith, Bytes, codes, bytes_eq, has_prefix,
  if◌then◌else◌, length, All,
}
use ldap_manager.Base.Int.{ℤ, pos, ◌<ℤ◌}
use ldap_manager.Directory.{
  Attribute, Entry, Change, Request, search_entries, add_entry, modify, Answer, entries, Env,
}
use ldap_manager.Manager.Groups.{NewGroupRequest}
use ldap_manager.Manager.Groups.Numbering.{IsNumbering}
use ldap_manager.Manager.Groups.Numbering.Runs.{
  IsDistinct, IsNumbered, new_groups, created, new_groups-IsDistinct,
}
use ldap_manager.Text.Decimal.{Parsed, parsed, syntax_error, range_error, itoa, atoi}
use ldap_manager.Text.Decimal.RoundTrip.{atoi-itoa}
use ldap_manager.Examples.World.{example_manager, example_env, values_of, first_of}

-- The number in the record, and the numbers of the groups.
pub record Numbers : Type 0 where
  pub last : ℤ
  pub gids : List ℤ

abbrev number : Parsed → ℤ
number (parsed n) = n
number syntax_error = pos 0
number (range_error n) = pos 0

abbrev last_record : ℤ → Entry
last_record n = record {
  dn = codes "cn=lastGID,dc=example,dc=org";
  attributes = record { name = codes "serialNumber"; values = itoa n ∷ [] } ∷ [];
}

abbrev text_of : List Attribute → Bytes
text_of attributes = first_of (values_of attributes (codes "gidNumber"))

abbrev changed_to : List Change → Bytes
changed_to [] = []
changed_to (c ∷ cs) = first_of c.values

abbrev serve : Request → Numbers → Answer × Numbers
serve (search_entries r) s = (
  entries (
      if has_prefix r.filter (codes "(&(objectClass=device)") then last_record s.last ∷ [] else []),
  s,
)
serve (add_entry dn attributes) s =
    (entries [], record s { gids = number (atoi (text_of attributes)) ∷ s.gids })
serve (modify dn changes) s = (entries [], record s { last = number (atoi (changed_to changes)) })
serve _ s = (entries [], s)

abbrev numbering_env : Env
numbering_env = record {
  State = Numbers;
  perform = serve;
  get_attribute_value = example_env.get_attribute_value;
  get_attribute_values = example_env.get_attribute_values;
  capture = example_env.capture;
  escape_filter = example_env.escape_filter;
  unicode = example_env.unicode;
  quote = example_env.quote;
  digests = example_env.digests;
  random = λ s n. [];
}

numbering : IsNumbering numbering_env example_manager
unfolding has_prefix bytes_eq
numbering = record {
  last = λ s. s.last;
  gids = λ s. s.gids;
  search_last = λ q s. refl;
  search_gids = λ q s. refl;
  found = λ s. (last_record s.last, [], s, refl, refl);
  changed = λ gid s int. ([], record s { last = gid }, rw (atoi-itoa gid int) refl, refl, refl);
  added = λ name gid members s int. (refl, rw (atoi-itoa gid int) refl);
}

abbrev start : Numbers
start = record { last = pos 2007; gids = pos 2007 ∷ [] }

numbered : IsNumbered numbering_env example_manager numbering start
unfolding numbering
numbered = record {
  low = omega arith;
  int = omega arith;
  below = (omega arith, tt);
  distinct = (tt, tt);
}

abbrev two_groups : List (NewGroupRequest × Bool)
two_groups =
    (record { name = codes "staff"; members = codes "ann" ∷ [] }, false)
    ∷ (record { name = codes "ops"; members = codes "ann" ∷ [] }, false)
    ∷ []

new_groups-IsDistinct_example :
    let t = new_groups numbering_env example_manager numbering two_groups start in
    (new : List ℤ) × (t.gids ≡ new ++ pos 2007 ∷ [])
    × (length new ≡ created numbering_env example_manager numbering two_groups start)
    × All (λ g. pos 2007 <ℤ g) new
    × IsDistinct t.gids
unfolding numbering
new_groups-IsDistinct_example =
    new_groups-IsDistinct numbering_env example_manager numbering two_groups start numbered
      (omega arith)
