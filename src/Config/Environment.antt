-- ===== src/Config/Environment.antt =====
-- What the environment does to a configuration.
use mathlib.Core.List.{reverse, reverse-cons, append_assoc, append-nil}
use glint.Common.{
  ℕ, ◌≡◌, ◌↔◌, refl, ap, ◌∙◌, String, Bool, true, false, none, List, [], ◌∷◌, ◌++◌, arith, All,
  ◌==◌,
}
use glint.Common.Int.{ℤ}
use glint.Common.Text.{Str, str, str_eq, is_empty, parse_int}
use glint.Common.Float.{Float}
use glint.Config.Types.{Config, PveConfig, PbsConfig, NotificationConfig, defaults}
use glint.Config.Validate.{
  validate, check_from, check_pve, check_alerts, check_cpu_alert, check_guest_alert,
  check_backup_alert, check_datastore_alert, valid_level, valid_format,
}
use glint.Config.Load.{
  outside, inside, expand_from, expand_env_vars, override, override_int, env_pve, env_pbs, env_ntfy,
  apply_env_overrides,
}

module _ (getenv : Str → Str) where
  override_idem :
      (n : String) (s : Str) → override getenv n (override getenv n s) ≡ override getenv n s
  unfolding override
  override_idem n s = ground arith

  override_int_idem :
      (n : String) (z : ℤ)
      → override_int getenv n (override_int getenv n z) ≡ override_int getenv n z
  unfolding override_int
  override_int_idem n z = ground arith

  env_pve_idem : (l : List PveConfig) → env_pve getenv (env_pve getenv l) ≡ env_pve getenv l
  unfolding env_pve
  env_pve_idem [] = ground arith
  env_pve_idem (c ∷ l) = refl

  env_pbs_idem : (l : List PbsConfig) → env_pbs getenv (env_pbs getenv l) ≡ env_pbs getenv l
  unfolding env_pbs
  env_pbs_idem [] = ground arith
  env_pbs_idem (c ∷ l) = refl

  env_ntfy_idem :
      (l : List NotificationConfig) → env_ntfy getenv (env_ntfy getenv l) ≡ env_ntfy getenv l
  unfolding env_ntfy
  env_ntfy_idem [] = ground arith
  env_ntfy_idem (c ∷ l) = refl

  -- The overrides made twice are the overrides made once.
  apply_env_overrides_idem :
      {F : Type 0} (c : Config F)
      → apply_env_overrides getenv (apply_env_overrides getenv c) ≡ apply_env_overrides getenv c
  unfolding apply_env_overrides
  apply_env_overrides_idem c =
      simp (override_idem, override_int_idem, env_pve_idem, env_pbs_idem, env_ntfy_idem)

  -- No byte of the text is the given one.
  abbrev pub Without : ℕ → Str → Type 0
  Without d = All (λ c. (c == d) ≡ false)

  expand_name :
      (acc name post : Str)
      → Without b'}' name
      → is_empty acc ≡ false
      → expand_from getenv (inside acc) (name ++ b'}' ∷ post)
        ≡ getenv (reverse acc ++ name) ++ expand_from getenv outside post
  unfolding expand_from
  expand_name [] name post w h = cc
  expand_name (d ∷ acc) [] post w h = rw append-nil refl
  expand_name (d ∷ acc) (c ∷ name) post w h = rw w.0 (
      expand_name (c ∷ d ∷ acc) name post w.1 refl
      ∙ ap (λ n. getenv n ++ expand_from getenv outside post)
          (rw (reverse-cons c (d ∷ acc)) (simp append_assoc)))

  -- A placeholder ${NAME} behind a text without $ is replaced by the value of NAME, which is not expanded
  -- again, and the scan goes on behind it.
  expand_env_vars-placeholder :
      (pre name post : Str)
      → Without b'$' pre
      → Without b'}' name
      → is_empty name ≡ false
      → expand_env_vars getenv (pre ++ b'$' ∷ b'{' ∷ name ++ b'}' ∷ post)
        ≡ pre ++ getenv name ++ expand_env_vars getenv post
  unfolding expand_env_vars expand_from
  expand_env_vars-placeholder [] [] post p w h = cc
  expand_env_vars-placeholder [] (c ∷ name) post p w h =
      rw w.0 (expand_name (c ∷ []) name post w.1 refl)
  expand_env_vars-placeholder (c ∷ pre) name post p w h =
      rw p.0 (ap (λ (s : Str). c ∷ s) (expand_env_vars-placeholder pre name post p.1 w h))

-- Without variables for the log, the history, the workers, PBS and ntfy, the configuration without a file
-- passes the validation exactly when the URL, the token id and the token secret of a single PVE instance
-- have a value each and the URL parses.
pub single_instance_iff :
    (fl : Float) (getenv : Str → Str) (url_ok : Str → Bool)
    → is_empty (getenv (str "GLINT_LOG_LEVEL")) ≡ true
    → is_empty (getenv (str "GLINT_LOG_FORMAT")) ≡ true
    → getenv (str "GLINT_HISTORY_HOURS") ≡ []
    → getenv (str "GLINT_WORKER_POOL_SIZE") ≡ []
    → is_empty (getenv (str "GLINT_PBS_URL")) ≡ true
    → is_empty (getenv (str "GLINT_NTFY_URL")) ≡ true
    → (validate fl url_ok (apply_env_overrides getenv defaults) ≡ none) ↔ (
        (is_empty (getenv (str "GLINT_PVE_URL")) ≡ false)
        × (url_ok (getenv (str "GLINT_PVE_URL")) ≡ true)
        × (is_empty (getenv (str "GLINT_PVE_TOKEN_ID")) ≡ false)
        × (is_empty (getenv (str "GLINT_PVE_TOKEN_SECRET")) ≡ false))
unfolding validate apply_env_overrides defaults override override_int env_pve env_pbs env_ntfy
    check_from check_pve check_alerts check_cpu_alert check_guest_alert check_backup_alert
    check_datastore_alert str str_eq valid_level valid_format parse_int
single_instance_iff fl getenv url_ok l f h w b n = ground arith
