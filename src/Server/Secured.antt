-- ===== src/Server/Secured.antt =====
-- The headers that internal/api/middleware.go sets, through the handlers of internal/api/handlers.go.
use glint.Common.{Bool, true, false, Option, some, List, ◌≡◌, Option-cases, Bool-cases, inl, inr}
use glint.Common.Text.{Str, str, str_eq}
use glint.Common.Float.{Float}
use glint.Common.Dict.{lookup, str_key}
use glint.Store.Rows.{Database}
use glint.Model.{SparklinePoint}
use glint.Sparkline.{Response, handle_node_sparkline, handle_guest_sparkline}
use glint.Server.{Head, installed, security_headers_middleware}
use glint.Server.Handlers.{
  Page, Request, Route, Site, respond, handle, serve, static, swagger, root, nodes, guests, backups,
  events, disks, disk_detail, node_sparkline_svg, guest_sparkline_svg, node_sparkline,
  guest_sparkline, healthz, widget, render_html, write_json, dashboard_page, disk_page, points_json,
  snap, handle_dashboard, handle_disk_detail_fragment,
}
use glint.Server.Guarded.{
  IsSecured, IsSafe, buffered-IsSafe, respond-IsSafe, not_found-Guarded, recovered,
  answered-IsSecured, shielded, shielded-Guarded,
}

-- The routes of handlers.go; those of files and of the API's description are the library's.
abbrev pub is_own : Route → Bool
is_own static = false
is_own swagger = false
is_own _ = true

module _ (fl : Float) (sql_div : fl.Carrier → fl.Carrier → Option fl.Carrier)
    (d : Database fl.Carrier) (s : Site fl d) where
  html-IsSafe : (p : Page fl.Carrier) → IsSafe (render_html s.render p)
  unfolding render_html
  html-IsSafe p = buffered-IsSafe _ (s.render.page p)

  dashboard-IsSafe : (path : Str) → IsSafe (handle_dashboard s.render (snap fl sql_div d s) path)
  unfolding handle_dashboard
  dashboard-IsSafe path w g = elim (Bool-cases (str_eq path (str "/"))) [
    | inl whole ↦ rw whole (html-IsSafe (dashboard_page (snap fl sql_div d s)) w g)
    | inr other ↦ rw other (not_found-Guarded w g)
  ]

  disk_detail-IsSafe :
      (wwn : Str) → IsSafe (handle_disk_detail_fragment s.render (snap fl sql_div d s) wwn)
  unfolding handle_disk_detail_fragment
  disk_detail-IsSafe wwn w g = elim (Option-cases (lookup wwn (snap fl sql_div d s).disks)) [
    | inl e ↦ rw (e, handle_disk_detail_fragment) (not_found-Guarded w g)
    | inr (disk, e) ↦ rw (e, handle_disk_detail_fragment) (html-IsSafe (disk_page disk) w g)
  ]

  points-IsSafe :
      (o : Response (List (SparklinePoint fl.Carrier)))
      → IsSafe (respond (λ points. write_json s.render (points_json points)) o)
  unfolding write_json
  points-IsSafe o =
      respond-IsSafe (λ points. write_json s.render (points_json points)) o
        (λ points. buffered-IsSafe (str "application/json") (s.render.json (points_json points)))

  handle-IsSafe :
      (path : Str) (query : Str → Str) (route : Route)
      → is_own route ≡ true
      → IsSafe (handle fl sql_div d s path query route)
  unfolding handle write_json
  handle-IsSafe path query static own = cc
  handle-IsSafe path query swagger own = cc
  handle-IsSafe path query root own = dashboard-IsSafe path
  handle-IsSafe path query nodes own = html-IsSafe _
  handle-IsSafe path query guests own = html-IsSafe _
  handle-IsSafe path query backups own = html-IsSafe _
  handle-IsSafe path query events own = html-IsSafe _
  handle-IsSafe path query disks own = html-IsSafe _
  handle-IsSafe path query (disk_detail wwn) own = disk_detail-IsSafe wwn
  handle-IsSafe path query (node_sparkline_svg inst node) own =
      respond-IsSafe _ _ (λ (points, text). html-IsSafe _)
  handle-IsSafe path query (guest_sparkline_svg inst vmid) own =
      respond-IsSafe _ _ (λ (points, text). html-IsSafe _)
  handle-IsSafe path query (node_sparkline inst node) own = points-IsSafe (
      handle_node_sparkline fl sql_div d s.carried s.now inst node (query (str "hours"))
        (query (str "metric")) s.store)
  handle-IsSafe path query (guest_sparkline inst vmid) own =
      points-IsSafe (handle_guest_sparkline fl sql_div d s.carried s.now inst vmid s.store)
  handle-IsSafe path query healthz own = buffered-IsSafe _ _
  handle-IsSafe path query widget own = buffered-IsSafe _ _

  -- Every response of the handlers of the repository carries the five headers of the middleware, with their
  -- values: pages, JSON, all errors, and the answer 500 to a panic. It holds for every route but those of
  -- files and of the API's description, whose handlers are the library's.
  pub serve-IsSecured :
      (r : Request)
      → is_own r.route ≡ true
      → (head : Head) × (body : Str) × (serve fl sql_div d s r ≡ some (head, body))
        × IsSecured head.headers
  unfolding serve installed security_headers_middleware shielded
  serve-IsSecured r own =
      let (w, ran, g) =
        recovered (handle fl sql_div d s r.path r.query r.route) shielded
          (handle-IsSafe r.path r.query r.route own) shielded-Guarded in
      rw ran (answered-IsSecured w g)
