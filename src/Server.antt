-- ===== src/Server.antt =====
-- internal/api/middleware.go and internal/api/handlers.go: how the server answers a request, from the
-- middleware to the handler. Of net/http the model has ResponseWriter, Error and NotFound. The route that the
-- ServeMux picks, the templates, json.Marshal and the handlers of the library are parameters. Logging is left
-- out, and so are errors of writing to the client, which the code only logs.
pub mod Handlers
pub mod Guarded
pub mod Secured
pub mod Answers
pub mod Tests
use glint.Common.{ℕ, Option, none, some, List, [], ◌++◌}
use glint.Common.Text.{Str, str}
use glint.Common.Dict.{Dict, insert, erase, str_key}

-- What WriteHeader sends.
pub record Head : Type 0 where
  pub status : ℕ
  pub headers : Dict Str Str

-- http.ResponseWriter with its header map, and what it has sent.
pub record Writer : Type 0 where
  pub header : Dict Str Str
  pub sent : Option Head
  pub body : Str

-- How a handler ends.
pub data Outcome : Type 0 where
  returned : Writer → Outcome
  panicked : Writer → Outcome

-- A handler on a request that is fixed.
abbrev pub Handler : Type 0
Handler = Writer → Outcome

unfoldable pub set_header : (key value : Str) → Writer → Writer
set_header key value w = record w { header = insert key value w.header }

-- Only the first call sends.
unfoldable pub write_header : ℕ → Writer → Writer
write_header code w = elim w.sent [
  | none ↦ record w { sent = some (record { status = code; headers = w.header }) }
  | some head ↦ w
]

-- A write before WriteHeader sends the status 200.
unfoldable pub write : Str → Writer → Writer
unfolding write_header
write text w = let w' = write_header 200 w in record w' { body = w'.body ++ text }

unfoldable pub delete_header : Str → Writer → Writer
delete_header key w = record w { header = erase key w.header }

-- http.Error.
unfoldable pub http_error : Str → ℕ → Writer → Writer
unfolding set_header write_header write delete_header
http_error text code w =
    let cleared = delete_header (str "Content-Length") w in
    let typed = set_header (str "Content-Type") (str "text/plain; charset=utf-8") cleared in
    let safe = set_header (str "X-Content-Type-Options") (str "nosniff") typed in
    write (text ++ str "\n") (write_header code safe)

-- http.NotFound.
unfoldable pub not_found : Writer → Writer
unfolding http_error
not_found = http_error (str "404 page not found") 404

-- Internal Server Error.
unfoldable pub server_error : Writer → Writer
unfolding http_error
server_error = http_error (str "Internal Server Error") 500

abbrev pub content_security_policy : Str
content_security_policy =
    str
      "default-src 'self'; script-src 'self'; style-src 'self' 'unsafe-inline'; upgrade-insecure-requests"

unfoldable pub security_headers_middleware : Handler → Handler
unfolding set_header
security_headers_middleware next w =
    let w1 = set_header (str "X-Content-Type-Options") (str "nosniff") w in
    let w2 = set_header (str "X-Frame-Options") (str "DENY") w1 in
    let w3 = set_header (str "Content-Security-Policy") content_security_policy w2 in
    let w4 = set_header (str "Referrer-Policy") (str "strict-origin-when-cross-origin") w3 in
    next (set_header (str "Cache-Control") (str "no-store") w4)

unfoldable pub recovery_middleware : Handler → Handler
unfolding server_error
recovery_middleware next w = elim (next w) [
  | returned w' ↦ returned w'
  | panicked w' ↦ returned (server_error w')
]

-- The handler that NewServer installs before the mux.
unfoldable pub installed : Handler → Handler
unfolding security_headers_middleware recovery_middleware
installed mux = security_headers_middleware (recovery_middleware mux)

abbrev pub blank : Writer
blank = record { header = []; sent = none; body = [] }

-- What net/http has sent when the handler has ended: 200 where nothing was, and no response where the panic
-- reaches it before anything was sent.
unfoldable pub response : Outcome → Option (Head × Str)
unfolding write_header
response (returned w) = elim (write_header 200 w).sent [
  | none ↦ none
  | some head ↦ some (head, w.body)
]
response (panicked w) = elim w.sent [ none ↦ none | some head ↦ some (head, w.body) ]
