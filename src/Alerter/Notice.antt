-- ===== src/Alerter/Notice.antt =====
-- What the rules of `evaluate` in internal/alerter/alerter.go share: loops over the state, groups that may be
-- off, the texts and the keys of notifications.
use glint.Common.{ℕ, String, false, Option, none, some, List, [], ◌∷◌, ◌++◌}
use glint.Common.Text.{Str, str}
use glint.Common.Dict.{Dict}
use glint.Model.{Notification}
use glint.Alerter.State.{Alerter}

-- A loop that threads the state.
unfoldable pub for_each {ℓ} : {A : Type ℓ} → (A → Alerter → Alerter) → List A → Alerter → Alerter
for_each f [] a = a
for_each f (x ∷ xs) a = for_each f xs (f x a)

-- Texts in a row.
unfoldable pub concat : List Str → Str
concat [] = []
concat (s ∷ rest) = s ++ concat rest

-- A notification of this round: not resolved, made now.
unfoldable pub notice : ℕ → String → Str → Str → Str → Str → Str → Dict Str Str → Notification
notice now alert_type severity title message inst subject metadata = record {
  alert_type = str alert_type;
  severity = severity;
  title = title;
  message = message;
  instance_name = inst;
  subject = subject;
  timestamp = now;
  resolved = false;
  metadata = metadata;
}

-- "kind:outer/inner"
unfoldable pub key : String → Str → Str → Str
key kind outer inner = concat (str kind ∷ str ":" ∷ outer ∷ str "/" ∷ inner ∷ [])

-- A group of rules that a nil configuration switches off.
unfoldable pub if_set {ℓ} : {C : Type ℓ} → (C → Alerter → Alerter) → Option C → Alerter → Alerter
if_set f none a = a
if_set f (some cfg) a = f cfg a
