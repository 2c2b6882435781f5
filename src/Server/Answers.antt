-- ===== src/Server/Answers.antt =====
-- What the HTML routes of internal/api/handlers.go answer, middleware included.
use glint.Common.{ℕ, Bool, true, false, Option, none, some, ◌++◌, ◌≡◌, refl, ◌/◌, if◌then◌else◌}
use glint.Common.Text.{Str, str, str_eq}
use glint.Common.Float.{Float}
use glint.Common.Dict.{insert, erase, lookup, str_key}
use glint.Store.Rows.{Database}
use mathlib.Core.Option
use glint.Model.{Disk}
use glint.Cache.{Snapshot}
use glint.Server.{
  Handler, Head, returned, http_error, installed, not_found, recovery_middleware, response,
  security_headers_middleware, server_error, set_header, write, write_header, delete_header,
}
use glint.Common.Int.{pos}
use glint.Common.Time.{second}
use glint.Sparkline.{handle_healthz}
use glint.Server.Guarded.{shielded}
use glint.Server.Handlers.{
  Page, Render, Rendered, healthz, health_json, write_json, Request, Route, Site, rendered, failed,
  panics, buffered, handle, serve, root, nodes, guests, backups, events, disks, disk_detail,
  render_html, handle_dashboard, handle_disk_detail_fragment, dashboard_page, nodes_page,
  guests_page, backups_page, events_page, disks_page, disk_page, snap,
}

-- A response with this status, content type and body.
abbrev pub Shows : ℕ × Str × Str → Option (Head × Str) → Type 0
Shows (status, content_type, body) o =
    (head : Head) × (o ≡ some (head, body))
    × (head.status ≡ status)
    × (lookup (str "Content-Type") head.headers ≡ some content_type)

abbrev pub html : Str
html = str "text/html; charset=utf-8"

abbrev pub plain_text : Str
plain_text = str "text/plain; charset=utf-8"

-- What a client should get of a rendering, and of a component or its absence.
abbrev pub outcome_of : (content_type : Str) → Rendered → ℕ × Str × Str
outcome_of content_type (rendered text) = (200, content_type, text)
outcome_of content_type failed = (500, plain_text, str "Internal Server Error\n")
outcome_of content_type panics = (500, plain_text, str "Internal Server Error\n")

abbrev pub answer : {F : Type 0} → Render F → Option (Page F) → ℕ × Str × Str
answer render none = (404, plain_text, str "404 page not found\n")
answer render (some p) = outcome_of html (render.page p)

-- The component that a path should show: the dashboard only at /, and a disk only if the cache has it.
abbrev pub page_of : {F : Type 0} → Snapshot F → Str → Route → Option (Page F)
page_of s path root = if str_eq path (str "/") then some (dashboard_page s) else none
page_of s path nodes = some (nodes_page s)
page_of s path guests = some (guests_page s)
page_of s path backups = some (backups_page s)
page_of s path events = some (events_page s)
page_of s path disks = some (disks_page s)
page_of s path (disk_detail wwn) = Option.map disk_page (lookup wwn s.disks)
page_of s path _ = none

abbrev pub is_html : Route → Bool
is_html root = true
is_html nodes = true
is_html guests = true
is_html backups = true
is_html events = true
is_html disks = true
is_html (disk_detail wwn) = true
is_html _ = false

-- The response through the recovery.
abbrev through : Handler → Option (Head × Str)
through h = response (recovery_middleware h shielded)

error-Shows :
    (text : Str) (code : ℕ)
    → Shows
        (code, plain_text, text ++ str "\n")
        (response (returned (http_error text code shielded)))
unfolding response http_error shielded write write_header set_header delete_header insert erase
    lookup str str_eq
error-Shows text code = (_, refl, refl, refl)

page-Shows :
    (content_type text : Str)
    → Shows
        (200, content_type, text)
        (response (returned (write text (set_header (str "Content-Type") content_type shielded))))
unfolding response shielded write write_header set_header insert lookup str str_eq
page-Shows content_type text = (_, refl, refl, refl)

missing-Shows :
    Shows (404, plain_text, str "404 page not found\n") (through (λ w. returned (not_found w)))
unfolding recovery_middleware not_found str
missing-Shows = error-Shows (str "404 page not found") 404

buffered-Shows :
    (content_type : Str) (o : Rendered)
    → Shows (outcome_of content_type o) (through (buffered content_type o))
unfolding buffered recovery_middleware server_error str
buffered-Shows content_type (rendered text) = page-Shows content_type text
buffered-Shows content_type failed = error-Shows (str "Internal Server Error") 500
buffered-Shows content_type panics = error-Shows (str "Internal Server Error") 500

module _ {F : Type 0} (render : Render F) where
  html-Shows : (p : Page F) → Shows (answer render (some p)) (through (render_html render p))
  unfolding render_html
  html-Shows p = buffered-Shows html (render.page p)

  module _ (s : Snapshot F) where
    dashboard-Shows :
        (path : Str)
        → Shows (answer render (page_of s path root)) (through (handle_dashboard render s path))
    unfolding handle_dashboard
    dashboard-Shows path = from (str_eq path (str "/"))
      where
        from :
            (b : Bool)
            → Shows (answer render (if b then some (dashboard_page s) else none)) (
                through (λ w.
                  if b then render_html render (dashboard_page s) w else returned (not_found w)))
        from true = html-Shows (dashboard_page s)
        from false = missing-Shows

    disk-Shows :
        (path wwn : Str)
        → Shows
            (answer render (page_of s path (disk_detail wwn)))
            (through (handle_disk_detail_fragment render s wwn))
    unfolding handle_disk_detail_fragment
    disk-Shows path wwn = from (lookup wwn s.disks)
      where
        from :
            (o : Option Disk)
            → Shows (answer render (Option.map disk_page o)) (
                through (λ w. elim o [
                  | none ↦ returned (not_found w)
                  | some disk ↦ render_html render (disk_page disk) w
                ]))
        from none = missing-Shows
        from (some disk) = html-Shows (disk_page disk)

module _ (fl : Float) (sql_div : fl.Carrier → fl.Carrier → Option fl.Carrier)
    (d : Database fl.Carrier) (s : Site fl d) where
  handle-Shows :
      (path : Str) (query : Str → Str) (route : Route)
      → is_html route ≡ true
      → Shows
          (answer s.render (page_of (snap fl sql_div d s) path route))
          (through (handle fl sql_div d s path query route))
  unfolding handle
  handle-Shows path query root h = dashboard-Shows s.render (snap fl sql_div d s) path
  handle-Shows path query nodes h = html-Shows s.render (nodes_page (snap fl sql_div d s))
  handle-Shows path query guests h = html-Shows s.render (guests_page (snap fl sql_div d s))
  handle-Shows path query backups h = html-Shows s.render (backups_page (snap fl sql_div d s))
  handle-Shows path query events h = html-Shows s.render (events_page (snap fl sql_div d s))
  handle-Shows path query disks h = html-Shows s.render (disks_page (snap fl sql_div d s))
  handle-Shows path query (disk_detail wwn) h = disk-Shows s.render (snap fl sql_div d s) path wwn
  handle-Shows path query _ h = cc

  -- What a client gets from an HTML route of the dashboard: the whole text of the component that the path
  -- should show, with the status 200; the answer 404 at another path than / below the dashboard's route and
  -- for a disk that the cache does not have; and where rendering fails or panics the answer 500 with its text
  -- alone, so that no part of a page is sent.
  pub serve-answer :
      (r : Request)
      → is_html r.route ≡ true
      → Shows
          (answer s.render (page_of (snap fl sql_div d s) r.path r.route))
          (serve fl sql_div d s r)
  unfolding serve installed security_headers_middleware shielded
  serve-answer r h = handle-Shows r.path r.query r.route h

  -- The health check answers with its JSON, or 500.
  pub healthz-Shows :
      (r : Request)
      → r.route ≡ healthz
      → Shows
          (outcome_of (str "application/json") (
            s.render.json (
              health_json
                (handle_healthz s.ago s.cache).0
                (pos (s.now / second))
                (handle_healthz s.ago s.cache).1)))
          (serve fl sql_div d s r)
  unfolding serve installed security_headers_middleware shielded handle write_json
  healthz-Shows r e = rw (e, handle) (buffered-Shows (str "application/json") _)
