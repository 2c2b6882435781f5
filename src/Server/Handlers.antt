-- ===== src/Server/Handlers.antt =====
-- The handlers of internal/api/handlers.go as they write their responses: renderHTML, writeJSON, and for each
-- route what it gives them.
use glint.Common.{ℕ, ◌/◌, Bool, Option, none, some, List, if◌then◌else◌}
use glint.Common.Int.{ℤ, pos}
use glint.Common.Text.{Str, str, str_eq}
use glint.Common.Float.{Float}
use glint.Common.Dict.{Dict, lookup, str_key}
use glint.Common.Time.{second}
use glint.Model.{Disk, SparklinePoint}
use glint.Cache.{Cache, Heap, Snapshot, view}
use glint.Store.Rows.{Database}
use glint.Store.{Store}
use glint.Widget.{WidgetResponse, handle_widget}
use glint.Sparkline.{
  Response, written, bad_request, handle_node_sparkline, handle_guest_sparkline,
  handle_node_sparkline_svg, handle_guest_sparkline_svg, handle_healthz,
}
use glint.Server.{
  Handler, returned, panicked, http_error, not_found, server_error, set_header, write, installed,
  response, blank, Head,
}

-- The components that the handlers render.
pub data Page (F : Type 0) : Type 0 where
  dashboard_page : Snapshot F → Page F
  nodes_page : Snapshot F → Page F
  guests_page : Snapshot F → Page F
  backups_page : Snapshot F → Page F
  events_page : Snapshot F → Page F
  disks_page : Snapshot F → Page F
  disk_page : Disk → Page F
  sparkline_page : List (SparklinePoint F) → (label : Str) → Page F

-- The values that they encode.
pub data Json (F : Type 0) : Type 0 where
  points_json : List (SparklinePoint F) → Json F
  widget_json : WidgetResponse F → Json F
  health_json : (status : Str) (timestamp : ℤ) → Dict Str Str → Json F

-- What comes of rendering or encoding.
pub data Rendered : Type 0 where
  rendered : Str → Rendered
  failed : Rendered
  panics : Rendered

pub record Render (F : Type 0) : Type 0 where
  pub page : Page F → Rendered
  pub json : Json F → Rendered

-- The patterns of registerRoutes, with their path values.
pub data Route : Type 0 where
  static swagger : Route
  root nodes guests backups events disks : Route
  disk_detail : (wwn : Str) → Route
  node_sparkline_svg : (inst node : Str) → Route
  guest_sparkline_svg : (inst vmid : Str) → Route
  node_sparkline : (inst node : Str) → Route
  guest_sparkline : (inst vmid : Str) → Route
  healthz widget : Route

-- A request with the route that the mux picks; `query` is r.URL.Query().Get.
pub record Request : Type 0 where
  pub route : Route
  pub path : Str
  pub query : Str → Str

-- Both renderHTML and writeJSON: into a buffer first, then with a content type to the client.
unfoldable pub buffered : (content_type : Str) → Rendered → Handler
unfolding server_error set_header write
buffered content_type (rendered text) w =
    returned (write text (set_header (str "Content-Type") content_type w))
buffered content_type failed w = returned (server_error w)
buffered content_type panics w = panicked w

-- Where a handler ends early, or goes on with what it has.
unfoldable pub respond : {A : Type 0} → (A → Handler) → Response A → Handler
unfolding server_error http_error
respond f (written a) w = f a w
respond f Response.server_error w = returned (server_error w)
respond f bad_request w = returned (http_error (str "Invalid VMID") 400 w)

module _ {F : Type 0} (render : Render F) where
  unfoldable pub render_html : Page F → Handler
  unfolding buffered
  render_html p = buffered (str "text/html; charset=utf-8") (render.page p)

  unfoldable pub write_json : Json F → Handler
  unfolding buffered
  write_json v = buffered (str "application/json") (render.json v)

  unfoldable pub handle_dashboard : Snapshot F → (path : Str) → Handler
  unfolding not_found render_html
  handle_dashboard snap path w =
      if str_eq path (str "/") then render_html (dashboard_page snap) w else returned (not_found w)

  handle_nodes_fragment : Snapshot F → Handler
  unfolding render_html
  handle_nodes_fragment snap = render_html (nodes_page snap)

  handle_guests_fragment : Snapshot F → Handler
  unfolding render_html
  handle_guests_fragment snap = render_html (guests_page snap)

  handle_backups_fragment : Snapshot F → Handler
  unfolding render_html
  handle_backups_fragment snap = render_html (backups_page snap)

  handle_events_fragment : Snapshot F → Handler
  unfolding render_html
  handle_events_fragment snap = render_html (events_page snap)

  handle_disks_fragment : Snapshot F → Handler
  unfolding render_html
  handle_disks_fragment snap = render_html (disks_page snap)

  unfoldable pub handle_disk_detail_fragment : Snapshot F → (wwn : Str) → Handler
  unfolding not_found render_html
  handle_disk_detail_fragment snap wwn w = elim (lookup wwn snap.disks) [
    | none ↦ returned (not_found w)
    | some disk ↦ render_html (disk_page disk) w
  ]

-- What a request finds: the cache, the store and its query's division, the clock, and the library's handlers.
pub record Site (fl : Float) (d : Database fl.Carrier) : Type 0 where
  pub render : Render fl.Carrier
  pub cache : Cache fl.Carrier
  pub heap : Heap fl.Carrier
  pub store : Store d
  pub carried : Bool
  pub now : ℕ
  pub ago : ℕ → ℤ
  pub files : Handler
  pub docs : Handler

module _ (fl : Float) (sql_div : fl.Carrier → fl.Carrier → Option fl.Carrier)
    (d : Database fl.Carrier) (s : Site fl d) where
  open s use {render, carried, now, store}

  abbrev pub snap : Snapshot fl.Carrier
  snap = view s.heap s.cache

  abbrev label : List (SparklinePoint fl.Carrier) × Str → Handler
  label (points, text) = render_html render (sparkline_page points text)

  abbrev health : Str × Dict Str Str → Handler
  health (status, collectors) =
      write_json render (health_json status (pos (now / second)) collectors)

  unfoldable pub handle : (path : Str) (query : Str → Str) → Route → Handler
  unfolding render_html write_json respond handle_dashboard handle_nodes_fragment
      handle_guests_fragment handle_backups_fragment handle_events_fragment handle_disks_fragment
      handle_disk_detail_fragment
  handle path query static = s.files
  handle path query swagger = s.docs
  handle path query root = handle_dashboard render snap path
  handle path query nodes = handle_nodes_fragment render snap
  handle path query guests = handle_guests_fragment render snap
  handle path query backups = handle_backups_fragment render snap
  handle path query events = handle_events_fragment render snap
  handle path query disks = handle_disks_fragment render snap
  handle path query (disk_detail wwn) = handle_disk_detail_fragment render snap wwn
  handle path query (node_sparkline_svg inst node) = respond label (
      handle_node_sparkline_svg fl sql_div d carried now inst node (query (str "hours"))
        (query (str "metric")) store)
  handle path query (guest_sparkline_svg inst vmid) =
      respond label (handle_guest_sparkline_svg fl sql_div d carried now inst vmid store)
  handle path query (node_sparkline inst node) =
      respond (λ points. write_json render (points_json points))
        (handle_node_sparkline fl sql_div d carried now inst node (query (str "hours"))
          (query (str "metric")) store)
  handle path query (guest_sparkline inst vmid) =
      respond (λ points. write_json render (points_json points))
        (handle_guest_sparkline fl sql_div d carried now inst vmid store)
  handle path query healthz = health (handle_healthz s.ago s.cache)
  handle path query widget = write_json render (widget_json (handle_widget fl snap))

  -- What the client gets.
  unfoldable pub serve : Request → Option (Head × Str)
  unfolding handle installed response
  serve r = response (installed (handle r.path r.query r.route) blank)
