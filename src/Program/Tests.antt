-- ===== src/Program/Tests.antt =====
-- A poll from the start, then a round of the alerter, then a second poll.
use mathlib.Core.Option
use glint.Common.{ℕ, ◌≡◌, ◌↔◌, Option, refl, some, none, [], ◌∷◌}
use glint.Common.Int.{ℤ}
use glint.Common.Text.{Str, str}
use glint.Common.Whole.{whole}
use glint.Cache.{snapshot, view}
use glint.Pve.{finish, PveCollector}
use glint.Pve.Tests.{api, cfg, events, order, ready}
use glint.Widget.{handle_widget}
use glint.Program.{Step, Steps, World, here, pve_polled, start, then_step}
use glint.Program.Sharing.{snapshot_kept}
use glint.Program.Online.{handle_widget-offline}
use glint.Store.Tests.{tables}
use glint.Startup.Health.{run_healthcheck}
use glint.Server.Handlers.{healthz, rendered, serve}
use glint.Server.Tests.{asked, divide, site}
use glint.Program.Probe.{health_of, run_healthcheck-serve}

abbrev idle : PveCollector
idle = record { nodes = []; cluster_id = []; last_disk_poll = none }

-- The state after a poll.
abbrev after_poll : World ℤ → World ℤ
after_poll w = record w {
  cache = (finish whole cfg 3 events ready (w.cache, w.heap)).1.0;
  heap = (finish whole cfg 3 events ready (w.cache, w.heap)).1.1;
}

poll : {w : World ℤ} → Step whole w (after_poll w)
unfolding glint.Pve.prepare glint.Pve.Parse.online_nodes str glint.Pve.set_cluster_id
    glint.Common.Text.str_eq
poll = pve_polled cfg api 3 idle ready events refl order

abbrev first_poll : World ℤ
first_poll = after_poll start

reached : Steps whole start first_poll
reached = then_step here poll

abbrev requested_world : World ℤ
requested_world = record first_poll { heap = (snapshot first_poll.cache first_poll.heap).1 }

snapshot_kept_example :
    view (after_poll requested_world).heap (snapshot first_poll.cache first_poll.heap).0
    ≡ view first_poll.heap first_poll.cache
snapshot_kept_example = snapshot_kept whole reached (then_step here poll)

handle_widget-offline_example :
    (handle_widget whole (view first_poll.heap first_poll.cache)).nodes.offline ≡ 0
handle_widget-offline_example = handle_widget-offline whole reached

-- A network on which every address is the server's health check.
abbrev health_check : Str → Option ℕ
health_check url = Option.map (λ x. x.0.status) (serve whole divide tables site (asked healthz))

run_healthcheck-serve_example :
    (run_healthcheck (λ listen. none) (λ host port. host) health_check [] ≡ 0)
    ↔ ((text : Str) × (site.render.json (health_of site) ≡ rendered text))
unfolding str
run_healthcheck-serve_example =
    run_healthcheck-serve whole divide tables site (λ listen. none) (λ host port. host) health_check
      [] (asked healthz) refl refl
