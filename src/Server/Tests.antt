-- ===== src/Server/Tests.antt =====
-- A site with one disk, whose pages and JSON render but for the fragment of nodes, which panics.
use glint.Common.{Option, some, [], ◌∷◌, ◌≡◌, refl, true}
use glint.Common.Int.{ℤ, pos}
use glint.Common.Text.{Str, str}
use glint.Common.Whole.{whole}
use glint.Common.Dict.{str_key}
use glint.Cache
use glint.Store.Tests.{filled, tables}
use glint.Widget.Tests.{disk}
use glint.Server.{Head, returned}
use glint.Server.Handlers.{
  Page, Render, Rendered, Request, Route, Site, disk_detail, nodes, nodes_page, panics, rendered,
  serve, snap,
}
use glint.Server.Guarded.{IsSecured}
use glint.Server.Secured.{serve-IsSecured}
use glint.Server.Answers.{Shows, answer, page_of, serve-answer}

abbrev pub shown : Page ℤ → Rendered
shown (nodes_page s) = panics
shown p = rendered (str "<div></div>")

abbrev pub render : Render ℤ
render = record { page = shown; json = λ v. rendered (str "[]") }

abbrev pub site : Site whole tables
site = record {
  render = render;
  cache = record Cache.new { disks = (str "w", disk 0) ∷ [] };
  heap = record { cells = []; next = 0 };
  store = filled [];
  carried = true;
  now = 5;
  ago = λ t. pos 1;
  files = λ w. returned w;
  docs = λ w. returned w;
}

abbrev pub asked : Route → Request
asked route = record { route = route; path = str "/x"; query = λ key. [] }

abbrev pub divide : ℤ → ℤ → Option ℤ
divide a b = some b

serve-IsSecured_example :
    (head : Head) × (body : Str) × (serve whole divide tables site (asked nodes)
      ≡ some (head, body))
    × IsSecured head.headers
serve-IsSecured_example = serve-IsSecured whole divide tables site (asked nodes) refl

serve-answer_example :
    Shows
      (answer render (page_of (snap whole divide tables site) (str "/x") (disk_detail (str "w"))))
      (serve whole divide tables site (asked (disk_detail (str "w"))))
serve-answer_example = serve-answer whole divide tables site (asked (disk_detail (str "w"))) refl
