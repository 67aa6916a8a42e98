-- ===== src/Server/Rest/Routes.antt =====
-- Which path belongs to which method: no request fits two routes.
use ldap_manager.Base.{
  ℕ, ◌<◌, ◌≡◌, refl, ap, sym, ◌∙◌, subst, Bool, true, false, not, ◌&&◌, ◌||◌, Option, none, some,
  List, [], ◌∷◌, arith, Bytes, bytes_eq, bytes_eq_sound, bytes_eq_refl, ◌==◌, if◌then◌else◌,
  all_below, all_below_sound, get_or,
}
use ldap_manager.Server.Rest.{
  HttpMethod, Route, Segment, literal, parameter, Params, method, template,
}

abbrev onto_params : Bytes → Bytes → Option Params → Option Params
onto_params name c none = none
onto_params name c (some params) = some ((name, c) ∷ params)

-- The parameters of a path that fits a template: literals are equal, a parameter is any element.
unfoldable pub match_path : List Segment → List Bytes → Option Params
match_path [] [] = some []
match_path [] (c ∷ cs) = none
match_path (t ∷ ts) [] = none
match_path (literal l ∷ ts) (c ∷ cs) =
    let rest = match_path ts cs in if bytes_eq l c then rest else none
match_path (parameter name ∷ ts) (c ∷ cs) = onto_params name c (match_path ts cs)

-- Two templates of one length in which no two literals differ.
unfoldable overlap : List Segment → List Segment → Bool
overlap [] [] = true
overlap [] (u ∷ us) = false
overlap (t ∷ ts) [] = false
overlap (literal l ∷ ts) (literal k ∷ us) = bytes_eq l k && overlap ts us
overlap (literal l ∷ ts) (parameter n ∷ us) = overlap ts us
overlap (parameter n ∷ ts) (u ∷ us) = overlap ts us

onto_params-some :
    (name c : Bytes) (o : Option Params) {p : Params}
    → onto_params name c o ≡ some p
    → (q : Params) × (o ≡ some q)
onto_params-some name c none h = absurd (cc)
onto_params-some name c (some q) h = (q, refl)

if-some :
    (b : Bool) (o : Option Params) {p : Params}
    → (if b then o else none) ≡ some p
    → (b ≡ true) × (o ≡ some p)
if-some true o h = (refl, h)
if-some false o h = absurd (cc)

same_element : (l w c : Bytes) → bytes_eq l c ≡ true → bytes_eq w c ≡ true → bytes_eq l w ≡ true
same_element l w c h k =
    subst (λ x. bytes_eq l x ≡ true) (bytes_eq_sound l c h ∙ sym (bytes_eq_sound w c k))
      (bytes_eq_refl l)

overlap-match_path :
    (ts us : List Segment) (cs : List Bytes) {p q : Params}
    → match_path ts cs ≡ some p
    → match_path us cs ≡ some q
    → overlap ts us ≡ true
unfolding match_path overlap
overlap-match_path [] [] cs h k = refl
overlap-match_path [] (u ∷ us) [] h k = cc
overlap-match_path [] (u ∷ us) (c ∷ cs) h k = cc
overlap-match_path (t ∷ ts) us [] h k = cc
overlap-match_path (t ∷ ts) [] (c ∷ cs) h k = cc
overlap-match_path (literal l ∷ ts) (literal w ∷ us) (c ∷ cs) h k =
    let (e, h') = if-some (bytes_eq l c) (match_path ts cs) h in
    let (f, k') = if-some (bytes_eq w c) (match_path us cs) k in
    rw (same_element l w c e f) (overlap-match_path ts us cs h' k')
overlap-match_path (literal l ∷ ts) (parameter n ∷ us) (c ∷ cs) h k =
    let (e, h') = if-some (bytes_eq l c) (match_path ts cs) h in
    let (q, k') = onto_params-some n c (match_path us cs) k in overlap-match_path ts us cs h' k'
overlap-match_path (parameter n ∷ ts) (literal w ∷ us) (c ∷ cs) h k =
    let (p, h') = onto_params-some n c (match_path ts cs) h in
    let (f, k') = if-some (bytes_eq w c) (match_path us cs) k in overlap-match_path ts us cs h' k'
overlap-match_path (parameter n ∷ ts) (parameter n' ∷ us) (c ∷ cs) h k =
    let (p, h') = onto_params-some n c (match_path ts cs) h in
    let (q, k') = onto_params-some n' c (match_path us cs) k in overlap-match_path ts us cs h' k'

abbrev method_code : HttpMethod → ℕ
method_code HttpMethod.get = 0
method_code HttpMethod.post = 1
method_code HttpMethod.put = 2
method_code HttpMethod.delete = 3

abbrev code : Route → ℕ
code Route.login = 0
code Route.get_user_list = 1
code Route.get_account = 2
code Route.new_account = 3
code Route.update_account = 4
code Route.delete_account = 5
code Route.change_password = 6
code Route.new_group = 7
code Route.delete_group = 8
code Route.update_group = 9
code Route.get_group_list = 10
code Route.get_user_groups = 11
code Route.get_group = 12
code Route.add_group_member = 13
code Route.delete_group_member = 14

all_routes : List Route
all_routes =
    Route.login ∷ Route.get_user_list ∷ Route.get_account ∷ Route.new_account ∷ Route.update_account
    ∷ Route.delete_account ∷ Route.change_password ∷ Route.new_group ∷ Route.delete_group
    ∷ Route.update_group ∷ Route.get_group_list ∷ Route.get_user_groups ∷ Route.get_group
    ∷ Route.add_group_member ∷ Route.delete_group_member ∷ []

abbrev route_at : ℕ → Route
route_at n = get_or all_routes n Route.login

route_at-code : (r : Route) → route_at (code r) ≡ r
unfolding all_routes
route_at-code Route.login = refl
route_at-code r = refl

code-lt : (r : Route) → code r < 15
code-lt Route.login = omega arith
code-lt r = omega arith

-- Two routes of one method whose paths may be the same are one route.
abbrev apart : Route → Route → Bool
apart r r' =
    not (method_code (method r) == method_code (method r') && overlap (template r) (template r'))
    || code r == code r'

all_apart : all_below 15 (λ i. all_below 15 (λ j. apart (route_at i) (route_at j))) ≡ true
unfolding all_below all_routes method template overlap bytes_eq
all_apart = refl

routes_apart : (r r' : Route) → apart r r' ≡ true
routes_apart r r' =
    let row =
      all_below_sound 15 (λ i. all_below 15 (λ j. apart (route_at i) (route_at j))) (code r)
        all_apart (code-lt r) in
    let cell =
      all_below_sound 15 (λ j. apart (route_at (code r)) (route_at j)) (code r') row (code-lt r') in
    subst (λ x. apart x r' ≡ true) (route_at-code r)
      (subst (λ x. apart (route_at (code r)) x ≡ true) (route_at-code r') cell)

-- No request fits two routes: if a path fits the templates of two routes of one method, they are the
-- same route. So it does not matter in which order the routes are tried.
pub template_unambiguous :
    (r r' : Route) (cs : List Bytes) (p q : Params)
    → method r ≡ method r'
    → match_path (template r) cs ≡ some p
    → match_path (template r') cs ≡ some q
    → r ≡ r'
template_unambiguous r r' cs p q e h k =
    let o = overlap-match_path (template r) (template r') cs h k in
    let same : code r ≡ code r' = ground (arith, routes_apart r r', ap method_code e, o) in
    sym (route_at-code r) ∙ ap route_at same ∙ route_at-code r'
