-- ===== src/Daemon/Gateway/Static.antt =====
-- Which files a request reaches.
use ldap_manager.Base.{
  ◌≡◌, ◌≢◌, refl, ap, inl, inr, Bool, true, false, if◌then◌else◌, Option, none, some, [], Bytes,
  codes, arith, Bool-cases, bytes_eq, has_prefix, drop, All,
}
use ldap_manager.Text.Path.{slash, filepath_join, clean_path}
use ldap_manager.Text.Path.Names.{IsPlain, IsBelow, clean_path-IsPlain, filepath_join-IsBelow}
use ldap_manager.Text.Split.{split}
use ldap_manager.Daemon.Options.{ServerOptions}
use ldap_manager.Daemon.Gateway.{
  Stat, found, not_exist, stat_failed, HttpRequest, HttpResponse, file, file_server, written,
  gateway, Handler, static_files, health_check, api, bootstrap_http, static_path, static_answer,
  serve_static, serve_health, not_found, serve_route, route_of, handled_by, lacks_slash, serve_http,
}

-- A file that is served is below the root, and so is the one that the file server is asked for.
abbrev pub ServesBelow : Bytes → HttpResponse → Type 0
ServesBelow root (file p) = IsBelow root p
ServesBelow root (file_server p) = IsBelow root (filepath_join root p)
ServesBelow root _ = Unit

ServesBelow-if :
    (root : Bytes) (b : Bool) (r r' : HttpResponse)
    → ServesBelow root r
    → ServesBelow root r'
    → ServesBelow root (if b then r else r')
ServesBelow-if root true r r' h k = h
ServesBelow-if root false r r' h k = k

module _ (o : ServerOptions) (rooted : o.static_root ≢ []) (stat stat' : Bytes → Stat)
    (agree : (p : Bytes) → IsBelow o.static_root p → stat p ≡ stat' p) (healthy : Bool) where
  -- The response does not depend on files elsewhere, and is none of them.
  abbrev IsConfined : HttpResponse → HttpResponse → Type 0
  IsConfined r r' = (r ≡ r') × ServesBelow o.static_root r

  below :
      (path : Bytes) → All IsPlain (split slash path) → IsBelow o.static_root (static_path o path)
  unfolding static_path
  below path h = filepath_join-IsBelow o.static_root path rooted h

  index : IsBelow o.static_root (filepath_join o.static_root (codes "index.html"))
  index =
      filepath_join-IsBelow o.static_root _ rooted
        (unfold split bytes_eq in (inr ((refl, refl, refl, omega arith)), tt))

  static_answer-IsBelow :
      (path : Bytes) (st : Stat)
      → All IsPlain (split slash path)
      → ServesBelow o.static_root (static_answer o path st)
  unfolding static_answer static_path
  static_answer-IsBelow path found h = below path h
  static_answer-IsBelow path not_exist h = index
  static_answer-IsBelow path (stat_failed message) h = tt

  serve_route-IsConfined :
      (h : Handler) (path : Bytes)
      → All IsPlain (split slash path)
      → IsConfined (serve_route stat o healthy h path) (serve_route stat' o healthy h path)
  unfolding serve_route serve_static serve_health
  serve_route-IsConfined static_files path plain = (
    ap (static_answer o path) (agree (static_path o path) (below path plain)),
    static_answer-IsBelow path (stat (static_path o path)) plain,
  )
  serve_route-IsConfined health_check path plain = (
    refl,
    ServesBelow-if o.static_root healthy (written 200 (codes "ok"))
        (written 503 (codes "service is not available")) tt tt,
  )
  serve_route-IsConfined api path plain = (
    refl,
    ServesBelow-if o.static_root (has_prefix path (codes "/api")) (gateway (drop 4 path)) not_found
        tt tt,
  )

  handled_by-IsConfined :
      (h : Option Handler) (path : Bytes)
      → All IsPlain (split slash path)
      → IsConfined (handled_by stat o healthy h path) (handled_by stat' o healthy h path)
  handled_by-IsConfined none path plain = (refl, tt)
  handled_by-IsConfined (some h) path plain = serve_route-IsConfined h path plain

  -- Let the root of the static files be given, and two file systems agree on all that is below it. Any
  -- request but a CONNECT is answered alike on both, and the file that is served, or that the file
  -- server is asked for, is below the root: its path has the elements of the root and behind them
  -- names only, none of them `..`.
  pub serve_http-IsConfined :
      (req : HttpRequest)
      → req.connects ≡ false
      → (serve_http stat o healthy req ≡ serve_http stat' o healthy req)
        × ServesBelow o.static_root (serve_http stat o healthy req)
  unfolding serve_http
  serve_http-IsConfined req e =
      elim (Bool-cases (lacks_slash (bootstrap_http o) (clean_path req.path))) [
        | inl slashless ↦ rw (e, slashless) (refl, tt)
        | inr other ↦ elim (Bool-cases (bytes_eq (clean_path req.path) req.path)) [
          | inl same ↦
              rw (e, other, same)
                (handled_by-IsConfined (route_of (bootstrap_http o) (clean_path req.path))
                  (clean_path req.path) (clean_path-IsPlain req.path))
          | inr unclean ↦ rw (e, other, unclean) (refl, tt)
        ]
      ]
