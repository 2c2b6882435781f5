-- ===== src/Notify.antt =====
-- internal/notify: the two providers. Building a request, sending it and encoding JSON are parameters:
-- what a request comes to is `none` for an error, or the status code of the answer.
use mathlib.Core.List.{reverse}
use glint.Common.{
  ℕ, Bool, ◌||◌, Option, none, some, List, [], ◌∷◌, ◌++◌, ◌==◌, ltb, leb, if◌then◌else◌,
}
use glint.Common.Text.{Str, str, str_eq, is_empty}
use glint.Common.Dict.{Dict}
use glint.Model.{Notification}

-- A request, with the calls of Header.Set in order.
pub record Request : Type 0 where
  pub method : Str
  pub url : Str
  pub headers : List (Str × Str)
  pub body : Str

pub data Provider : Type 0 where
  ntfy : (url topic : Str) → Provider
  webhook : (url method : Str) (headers : Dict Str Str) → Provider

-- strings.TrimRight(s, "/"), on the reversed text.
drop_slashes : Str → Str
drop_slashes [] = []
drop_slashes (c ∷ s) = let rest = drop_slashes s in if c == b'/' then rest else c ∷ s

unfoldable pub trim_slashes : Str → Str
unfolding drop_slashes
trim_slashes s = reverse (drop_slashes (reverse s))

unfoldable pub new_ntfy : Str → Str → Provider
new_ntfy url topic = ntfy (trim_slashes url) topic

unfoldable pub new_webhook : Str → Str → Dict Str Str → Provider
new_webhook url method headers =
    webhook url (if is_empty method then str "POST" else method) headers

unfoldable pub name : Provider → Str
name (ntfy url topic) = str "ntfy"
name (webhook url method headers) = str "webhook"

unfoldable pub severity_to_ntfy_priority : Str → Str
severity_to_ntfy_priority s =
    if str_eq s (str "critical")
    then str "5"
    else if str_eq s (str "warning")
    then str "3"
    else if str_eq s (str "info")
    then str "2"
    else str "3"

unfoldable pub severity_tag : Str → List Str
severity_tag s =
    if str_eq s (str "critical")
    then str "rotating_light" ∷ []
    else if str_eq s (str "warning")
    then str "warning" ∷ []
    else if str_eq s (str "info")
    then str "information_source" ∷ []
    else []

-- strings.Join(tags, ",").
unfoldable pub join_commas : List Str → Str
join_commas [] = []
join_commas (t ∷ []) = t
join_commas (t ∷ u ∷ rest) = t ++ b',' ∷ join_commas (u ∷ rest)

unfoldable pub ntfy_tags : Notification → Str
ntfy_tags n = join_commas (
    severity_tag n.severity
    ++ (if is_empty n.alert_type then [] else n.alert_type ∷ [])
    ++ (if n.resolved then str "white_check_mark" ∷ [] else []))

pub data SendError : Type 0 where
  marshal_failed : SendError
  build_failed : SendError
  send_failed : SendError
  unexpected_status : ℕ → SendError

unfoldable pub check_status : Option ℕ → Option SendError
check_status none = some send_failed
check_status (some status) =
    if ltb status 200 || leb 300 status then some (unexpected_status status) else none

module _ (marshal : Notification → Option Str) (can_build : Request → Bool)
    (send_request : Request → Option ℕ) where
  unfoldable pub transmit : Request → Option SendError
  transmit r = if can_build r then check_status (send_request r) else some build_failed

  unfoldable pub ntfy_request : Str → Str → Notification → Request
  ntfy_request url topic n = record {
    method = str "POST";
    url = url ++ b'/' ∷ topic;
    headers =
        (str "Title", n.title)
        ∷ (str "Priority", severity_to_ntfy_priority n.severity)
        ∷ (str "Tags", ntfy_tags n)
        ∷ [];
    body = n.message;
  }

  unfoldable pub webhook_request : Str → Str → Dict Str Str → Str → Request
  webhook_request url method headers body = record {
    method = method;
    url = url;
    headers = (str "Content-Type", str "application/json") ∷ headers;
    body = body;
  }

  -- `Send`; `none` is the error nil.
  unfoldable pub send : Provider → Notification → Option SendError
  unfolding transmit ntfy_request webhook_request
  send (ntfy url topic) n = transmit (ntfy_request url topic n)
  send (webhook url method headers) n = elim (marshal n) [
    | none ↦ some marshal_failed
    | some body ↦ transmit (webhook_request url method headers body)
  ]
