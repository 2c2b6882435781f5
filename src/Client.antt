-- ===== src/Client.antt =====
-- internal/collector/collector.go and the two `apiGet` of internal/collector: one request to the API of a
-- Proxmox host and its errors. The network is a parameter: what comes of a request under the settings of the
-- HTTP client. The texts of its errors are the library's.
pub mod Pbs
pub mod Pve
pub mod Contained
pub mod Reported
pub mod Pool
pub mod Rest
pub mod Loop
mod Tests
use glint.Common.{
  ℕ, zero, suc, Bool, true, false, ◌||◌, Option, none, some, List, [], ◌∷◌, ◌++◌, ◌==◌, leb, ◌*◌,
  if◌then◌else◌,
}
use glint.Common.Text.{Str, str, show_nat, trim_right}
use glint.Common.Result.{Result, ok, err}
use glint.Common.Time.{second}

pub record ApiError : Type 0 where
  pub status_code : ℕ
  pub body : Str
  pub endpoint : Str

-- `wrapped` is fmt.Errorf with a text before the error, `retryable` RetryableError.
pub data CollectError : Type 0 where
  external : Str → CollectError
  wrapped : Str → CollectError → CollectError
  retryable : CollectError → CollectError
  api_error : ApiError → CollectError

api_error_text : ApiError → Str
api_error_text e =
    str "API error " ++ show_nat e.status_code ++ str " from " ++ e.endpoint ++ str ": " ++ e.body

unfoldable pub error_text : CollectError → Str
unfolding api_error_text
error_text (external text) = text
error_text (wrapped text e) = text ++ error_text e
error_text (retryable e) = error_text e
error_text (api_error e) = api_error_text e

-- errors.As with an *APIError, along Unwrap.
unfoldable pub as_api_error : CollectError → Option ApiError
as_api_error (external text) = none
as_api_error (wrapped text e) = as_api_error e
as_api_error (retryable e) = as_api_error e
as_api_error (api_error e) = some e

api_is_retryable : ApiError → Bool
api_is_retryable e = leb 500 e.status_code || e.status_code == 429

-- IsRetryable(); `none` where the error has no such method.
unfoldable pub is_retryable : CollectError → Option Bool
unfolding api_is_retryable
is_retryable (external text) = none
is_retryable (wrapped text e) = none
is_retryable (retryable e) = some true
is_retryable (api_error e) = some (api_is_retryable e)

pub record HttpClient : Type 0 where
  pub insecure_skip_verify : Bool
  pub timeout : ℕ

pub record Request : Type 0 where
  pub client : HttpClient
  pub url : Str
  pub authorization : Str

-- A URL that is none, no connection, a body that breaks off, or a whole response.
pub data Answer : Type 0 where
  invalid : Str → Answer
  unreachable : Str → Answer
  broken : Str → Answer
  response : (status_code : ℕ) (body : Str) → Answer

abbrev pub Network : Type 0
Network = Request → Answer

unfoldable pub http_client : Bool → HttpClient
http_client insecure = record { insecure_skip_verify = insecure; timeout = 30 * second }

-- 10 MB.
abbrev pub body_limit : ℕ
body_limit = 10_485_760

-- What io.LimitReader lets through.
unfoldable pub take : ℕ → Str → Str
take n [] = []
take zero (c ∷ s) = []
take (suc n) (c ∷ s) = c ∷ take n s

unfoldable pub received : (op path : Str) → Answer → Result CollectError Str
received op path (invalid text) =
    err (wrapped (op ++ str ": creating request for " ++ path ++ str ": ") (external text))
received op path (unreachable text) =
    err (retryable (wrapped (op ++ str ": requesting " ++ path ++ str ": ") (external text)))
received op path (broken text) =
    err (wrapped (op ++ str ": reading response from " ++ path ++ str ": ") (external text))
received op path (response code body) =
    if code == 200
    then ok (take body_limit body)
    else err
        (api_error (record { status_code = code; body = take body_limit body; endpoint = path }))

unfoldable pub request : HttpClient → (authorization host path : Str) → Request
request client authorization host path = record {
  client = client;
  url = trim_right host b'/' ++ path;
  authorization = authorization;
}

-- Everything of `apiGet` but the form of the token.
unfoldable pub send :
    Network → HttpClient → (authorization host op path : Str) → Result CollectError Str
unfolding received request
send network client authorization host op path =
    received op path (network (request client authorization host path))
