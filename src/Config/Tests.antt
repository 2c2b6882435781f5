-- ===== src/Config/Tests.antt =====
-- Configurations from the environment alone.
use glint.Common.{◌≡◌, ◌↔◌, refl, Bool, true, false, Option, none, some, [], ◌∷◌, if◌then◌else◌}
use glint.Common.Int.{ℤ}
use glint.Common.Text.{Str, str, str_eq, is_empty}
use glint.Common.Whole.{whole}
use glint.Common.Result.{ok}
use glint.Common.Dict.{Dict, lookup, str_key}
use glint.Config.Types.{Config, defaults}
use glint.Config.Validate.{validate}
use glint.Config.Load.{ReadResult, not_exist, finish, load, apply_env_overrides}
use glint.Config.Usable.{IsUsable, validate_iff, load-IsUsable}
use glint.Config.Environment.{single_instance_iff}

abbrev variables : Dict Str Str
variables =
    (str "GLINT_PVE_URL", str "https://pve")
    ∷ (str "GLINT_PVE_TOKEN_ID", str "id")
    ∷ (str "GLINT_PVE_TOKEN_SECRET", str "secret")
    ∷ []

unfoldable getenv : Str → Str
unfolding lookup
getenv name = elim (lookup name variables) [ none ↦ [] | some v ↦ v ]

abbrev url_ok : Str → Bool
url_ok s = if is_empty s then false else true

abbrev read_file : Str → ReadResult
read_file path = not_exist

abbrev yaml : Str → Config ℤ → Option (Config ℤ)
yaml s c = some c

validate_iff_example :
    (validate whole url_ok (apply_env_overrides getenv defaults) ≡ none)
    ↔ IsUsable whole url_ok (apply_env_overrides getenv defaults)
validate_iff_example = validate_iff whole url_ok (apply_env_overrides getenv defaults)

valid : validate whole url_ok (apply_env_overrides getenv defaults) ≡ none
unfolding getenv str str_eq lookup
valid =
    (single_instance_iff whole getenv url_ok refl refl refl refl refl refl).1
      (refl, refl, refl, refl)

loads : load whole getenv url_ok read_file yaml [] ≡ ok (apply_env_overrides getenv defaults)
unfolding load finish
loads = rw (valid, finish) refl

load-IsUsable_example : IsUsable whole url_ok (apply_env_overrides getenv defaults)
load-IsUsable_example =
    load-IsUsable whole getenv url_ok read_file yaml [] (apply_env_overrides getenv defaults) loads

single_instance_iff_example :
    (validate whole url_ok (apply_env_overrides getenv defaults) ≡ none) ↔ (
      (is_empty (getenv (str "GLINT_PVE_URL")) ≡ false)
      × (url_ok (getenv (str "GLINT_PVE_URL")) ≡ true)
      × (is_empty (getenv (str "GLINT_PVE_TOKEN_ID")) ≡ false)
      × (is_empty (getenv (str "GLINT_PVE_TOKEN_SECRET")) ≡ false))
unfolding getenv str str_eq lookup
single_instance_iff_example = single_instance_iff whole getenv url_ok refl refl refl refl refl refl
