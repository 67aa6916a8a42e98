-- ===== src/Daemon/Gateway.antt =====
-- cmd/ldap-manager/http/server.go: which headers of a request are passed on, and the routes of
-- `bootstrapHTTP`. `http.ServeMux`, which picks the route, is that of the standard library.
pub mod Static
pub mod Health
use ldap_manager.Base.{
  ℕ, ◌++◌, Bool, true, false, not, ◌&&◌, Option, none, some, List, [], ◌∷◌, Bytes, codes, length,
  ltb, has_prefix, is_empty, bytes_eq, drop, if◌then◌else◌,
}
use ldap_manager.Text.Path.{filepath_join, clean_path, ends_in_slash}
use ldap_manager.Daemon.Options.{ServerOptions}

-- The matcher of `NewHTTPLDAPManagerServer`: a header's name, and whether it is passed on.
unfoldable pub incoming_header : Bytes → Bytes × Bool
incoming_header key =
    if bytes_eq key (codes "X-User-Token") then (codes "X-User-Token", true) else (key, false)

-- `os.Stat`
pub data Stat : Type 0 where
  found not_exist : Stat
  stat_failed : (message : Bytes) → Stat

pub record HttpRequest : Type 0 where
  -- Whether the method is CONNECT.
  pub connects : Bool
  pub path : Bytes

-- How a request is answered: by a file, by `http.FileServer` on the path, by a text with its status,
-- by the gateway, which is given a path, or by a redirection.
pub data HttpResponse : Type 0 where
  file : Bytes → HttpResponse
  file_server : (path : Bytes) → HttpResponse
  written : (status : ℕ) → Bytes → HttpResponse
  gateway : (path : Bytes) → HttpResponse
  moved : (path : Bytes) → HttpResponse

pub data Handler : Type 0 where
  static_files health_check api : Handler

abbrev Routes : Type 0
Routes = List (Bytes × Handler)

-- The routes of `bootstrapHTTP`
unfoldable pub bootstrap_http : ServerOptions → Routes
bootstrap_http o =
    (if o.static then (codes "/", static_files) ∷ [] else [])
    ++ ((if not (is_empty o.http_health_check_url)
          then (o.http_health_check_url, health_check) ∷ []
          else [])
        ++ ((codes "/api/", api) ∷ []))

-- `http.NotFound`
abbrev pub not_found : HttpResponse
not_found = written 404 (codes "404 page not found")

-- `http.StripPrefix`
abbrev pub strip_prefix : Bytes → Bytes → HttpResponse
strip_prefix prefix path =
    if has_prefix path prefix then gateway (drop (length prefix) path) else not_found

-- The route of exactly this path.
unfoldable pub exact_route : Routes → Bytes → Option Handler
exact_route [] path = none
exact_route ((pattern_path, h) ∷ routes) path =
    if bytes_eq pattern_path path then some h else exact_route routes path

-- Of the routes of a subtree that the path is in, the one with the longest pattern.
unfoldable pub subtree_route : Routes → (best : ℕ) → Option Handler → Bytes → Option Handler
subtree_route [] best picked path = picked
subtree_route ((pattern_path, h) ∷ routes) best picked path =
    let longer =
      ends_in_slash pattern_path
      && (has_prefix path pattern_path && ltb best (length pattern_path)) in
    subtree_route routes (if longer then length pattern_path else best)
      (if longer then some h else picked) path

unfoldable pub route_of : Routes → Bytes → Option Handler
unfolding exact_route subtree_route
route_of routes path = elim (exact_route routes path) [
  | some h ↦ some h
  | none ↦ subtree_route routes 0 none path
]

unfoldable pub is_route : Routes → Bytes → Bool
unfolding exact_route
is_route routes path = elim (exact_route routes path) [ none ↦ false | some h ↦ true ]

-- Whether the path lacks only the slash of a subtree's route.
unfoldable pub lacks_slash : Routes → Bytes → Bool
unfolding is_route
lacks_slash routes path =
    not (is_empty path) && (not (is_route routes path) && is_route routes (path ++ codes "/"))

module _ (o : ServerOptions) where
  -- The file that a path of the frontend stands for.
  unfoldable pub static_path : Bytes → Bytes
  static_path path = filepath_join o.static_root path

  -- The handler of the static frontend, by what `os.Stat` of that file returned.
  unfoldable pub static_answer : Bytes → Stat → HttpResponse
  static_answer path found = file_server path
  static_answer path not_exist = file (filepath_join o.static_root (codes "index.html"))
  static_answer path (stat_failed message) = written 500 message

module _ (stat : Bytes → Stat) (o : ServerOptions) (healthy : Bool) where
  unfoldable pub serve_static : Bytes → HttpResponse
  unfolding static_path static_answer
  serve_static path = static_answer o path (stat (static_path o path))

  unfoldable pub serve_health : HttpResponse
  serve_health =
      if healthy then written 200 (codes "ok") else written 503 (codes "service is not available")

  unfoldable pub serve_route : Handler → Bytes → HttpResponse
  unfolding serve_static serve_health
  serve_route static_files path = serve_static path
  serve_route health_check path = serve_health
  serve_route api path = strip_prefix (codes "/api") path

  abbrev pub handled_by : Option Handler → Bytes → HttpResponse
  handled_by none path = not_found
  handled_by (some h) path = serve_route h path

  -- `ServeHTTP` of the root mux: a path that is not clean is redirected, but for CONNECT.
  unfoldable pub serve_http : HttpRequest → HttpResponse
  unfolding bootstrap_http route_of lacks_slash serve_route
  serve_http req =
      let routes = bootstrap_http o in
      let path = if req.connects then req.path else clean_path req.path in
      if lacks_slash routes path
      then moved (path ++ codes "/")
      else if bytes_eq path req.path
      then handled_by (route_of routes path) path
      else moved path
