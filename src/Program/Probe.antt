-- ===== src/Program/Probe.antt =====
-- The health probe of cmd/glint/main.go against the server of internal/api.
use mathlib.Core.Option
use glint.Common.{ℕ, ◌/◌, ◌≡◌, refl, ◌↔◌, Option, arith, if◌then◌else◌}
use glint.Common.Int.{pos}
use glint.Common.Text.{Str, str, is_empty}
use glint.Common.Float.{Float}
use glint.Common.Time.{second}
use glint.Store.Rows.{Database}
use glint.Sparkline.{handle_healthz}
use glint.Startup.Health.{exit_code, probe_url, run_healthcheck}
use glint.Server.{Head}
use glint.Server.Handlers.{
  Json, Rendered, Request, Site, rendered, failed, panics, healthz, serve, health_json,
}
use glint.Server.Answers.{Shows, outcome_of, healthz-Shows}

exit_code-Shows :
    (content_type : Str) (o : Rendered) (answer : Option (Head × Str))
    → Shows (outcome_of content_type o) answer
    → (exit_code (Option.map (λ x. x.0.status) answer) ≡ 0) ↔ ((text : Str) × (o ≡ rendered text))
unfolding exit_code
exit_code-Shows content_type (rendered text) answer (head, e, status, t) =
    (λ h. (text, refl), λ h. rw e (rw status refl))
exit_code-Shows content_type failed answer (head, e, status, t) = (
  λ h.
      let one : exit_code (Option.map (λ x. x.0.status) answer) ≡ 1 = rw e (rw status refl) in
      absurd (omega arith),
  λ h. cc h.1,
)
exit_code-Shows content_type panics answer (head, e, status, t) = (
  λ h.
      let one : exit_code (Option.map (λ x. x.0.status) answer) ≡ 1 = rw e (rw status refl) in
      absurd (omega arith),
  λ h. cc h.1,
)

-- What the health check encodes.
abbrev pub health_of : {fl : Float} {d : Database fl.Carrier} → Site fl d → Json fl.Carrier
health_of s =
    health_json (handle_healthz s.ago s.cache).0 (pos (s.now / second))
      (handle_healthz s.ago s.cache).1

-- The address of GLINT_LISTEN, and port 3800 of every address where it is unset or empty.
abbrev pub listen_address : Str → Str
listen_address listen = if is_empty listen then str ":3800" else listen

module _ (fl : Float) (sql_div : fl.Carrier → fl.Carrier → Option fl.Carrier)
    (d : Database fl.Carrier) (s : Site fl d) (split_host_port : Str → Option (Str × Str))
    (join_host_port : Str → Str → Str) (fetch : Str → Option ℕ) where
  -- Where the address that GLINT_LISTEN names, or port 3800 without it, leads the probe to the health route of
  -- a running server, the probe exits with 0 exactly when the server's health data can be encoded. What the data say makes no difference: a server that no
  -- collector has given anything to is healthy too.
  pub run_healthcheck-serve :
      (listen : Str) (r : Request)
      → r.route ≡ healthz
      → fetch (probe_url split_host_port join_host_port (listen_address listen))
        ≡ Option.map (λ x. x.0.status) (serve fl sql_div d s r)
      → (run_healthcheck split_host_port join_host_port fetch listen ≡ 0)
        ↔ ((text : Str) × (s.render.json (health_of s) ≡ rendered text))
  unfolding run_healthcheck
  run_healthcheck-serve listen r at reached =
      rw (reached, run_healthcheck)
        (exit_code-Shows (str "application/json") (s.render.json (health_of s))
          (serve fl sql_div d s r) (healthz-Shows fl sql_div d s r at))
