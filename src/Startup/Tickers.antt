-- ===== src/Startup/Tickers.antt =====
-- The tickers of the parts that cmd/glint/main.go starts, and what internal/config/config.go checks of them.
use glint.Common.{
  ℕ, Bool, false, Option, none, some, List, [], ◌∷◌, ◌++◌, ◌≡◌, ◌↔◌, refl, arith, All, Bool-cases,
  inl, inr, map, ◌≢◌,
}
use glint.Common.Int.{ℤ, pos, negsuc, ◌≤ℤ◌}
use glint.Common.Text.{Str}
use glint.Common.Float.{Float}
use glint.Config.Types
use glint.Config.Types.{Config, SshConfig}
use glint.Config.Validate.{validate}
use glint.Config.Usable.{IsUsable, PveOk, validate_iff}
use glint.Startup.{pve_poll_interval, pbs_poll_interval}
use glint.Startup.Launch.{
  Component, started, start_pve, start_pbs, start_temperature, pve_settings, pbs_settings,
  ticker_interval, ticker_panics, pve_collector, pbs_collector, pruner, alerter, http_server,
}

-- The start-up of a component does not panic.
abbrev pub Ticks : Component → Type 0
Ticks k = ticker_panics (ticker_interval k) ≡ false

All-append_iff :
    {A : Type 0} (P : A → Type 0) (xs ys : List A) → All P (xs ++ ys) ↔ (All P xs × All P ys)
All-append_iff P [] ys = (λ h. (tt, h), λ h. h.1)
All-append_iff P (x ∷ xs) ys =
    let rest = All-append_iff P xs ys in
    (λ h. ((h.0, (rest.0 h.1).0), (rest.0 h.1).1), λ h. (h.0.0, rest.1 (h.0.1, h.1)))

module _ (key_ok : Str → Bool) where
  pve_settings-Ticks :
      (c : Types.PveConfig) → Ticks (pve_collector (pve_settings c)) ↔ (pos 0 ≤ℤ c.poll_interval)
  unfolding ticker_panics ticker_interval pve_settings pve_poll_interval
  pve_settings-Ticks c = ground arith

  pbs_settings-Ticks :
      (c : Types.PbsConfig) → Ticks (pbs_collector (pbs_settings c)) ↔ (pos 0 ≤ℤ c.poll_interval)
  unfolding ticker_panics ticker_interval pbs_settings pbs_poll_interval
  pbs_settings-Ticks c = ground arith

  start_temperature-Ticks :
      (name : Str) (o : Option SshConfig) → All Ticks (start_temperature key_ok name o)
  unfolding start_temperature ticker_panics ticker_interval
  start_temperature-Ticks name none = tt
  start_temperature-Ticks name (some ssh) = elim (Bool-cases (key_ok ssh.key_path)) [
    | inl readable ↦ rw readable (refl, tt)
    | inr other ↦ rw other tt
  ]

  start_pve-Ticks :
      (cs : List Types.PveConfig)
      → All Ticks (start_pve key_ok cs) ↔ All (λ c. pos 0 ≤ℤ c.poll_interval) cs
  unfolding start_pve
  start_pve-Ticks [] = (λ h. tt, λ h. tt)
  start_pve-Ticks (c ∷ cs) =
      let rest = start_pve-Ticks cs in
      let both =
        All-append_iff Ticks (start_temperature key_ok c.name c.ssh) (start_pve key_ok cs) in
      (
        λ h. ((pve_settings-Ticks c).0 h.0, rest.0 (both.0 h.1).1),
        λ h. (
          (pve_settings-Ticks c).1 h.0,
          both.1 (start_temperature-Ticks c.name c.ssh, rest.1 h.1),
        ),
      )

  start_pbs-Ticks :
      (cs : List Types.PbsConfig)
      → All Ticks (start_pbs key_ok cs) ↔ All (λ c. pos 0 ≤ℤ c.poll_interval) cs
  unfolding start_pbs
  start_pbs-Ticks [] = (λ h. tt, λ h. tt)
  start_pbs-Ticks (c ∷ cs) =
      let rest = start_pbs-Ticks cs in
      (
        λ h. ((pbs_settings-Ticks c).0 h.0, rest.0 h.1),
        λ h. ((pbs_settings-Ticks c).1 h.0, rest.1 h.1),
      )

  fixed_Ticks : (addr : Str) → All Ticks (pruner ∷ alerter ∷ http_server addr ∷ [])
  unfolding ticker_panics ticker_interval
  fixed_Ticks addr = (refl, (refl, (refl, tt)))

  -- No part that main starts panics at its ticker exactly when no poll interval of the configuration is
  -- negative: 0 stands for a default, and the intervals of the other parts are constants.
  started-Ticks_iff :
      {F : Type 0} (c : Config F)
      → All Ticks (started key_ok c)
        ↔ (All (λ p. pos 0 ≤ℤ p.poll_interval) c.pve × All (λ p. pos 0 ≤ℤ p.poll_interval) c.pbs)
  unfolding started
  started-Ticks_iff c =
      let a =
        All-append_iff Ticks (start_pve key_ok c.pve)
          (start_pbs key_ok c.pbs ++ (pruner ∷ alerter ∷ http_server c.listen ∷ [])) in
      let b =
        All-append_iff Ticks (start_pbs key_ok c.pbs)
          (pruner ∷ alerter ∷ http_server c.listen ∷ []) in
      (
        λ h.
            let (p, q) = a.0 h in
            ((start_pve-Ticks c.pve).0 p, (start_pbs-Ticks c.pbs).0 (b.0 q).0),
        λ h. a.1 (
          (start_pve-Ticks c.pve).1 h.0,
          b.1 ((start_pbs-Ticks c.pbs).1 h.1, fixed_Ticks c.listen),
        ),
      )

abbrev pub with_interval : ℤ → Types.PveConfig → Types.PveConfig
with_interval t p = record p { poll_interval = t }

-- The configuration with another poll interval of its PVE instances.
abbrev pub polled_every : {F : Type 0} → ℤ → Config F → Config F
polled_every t c = record c { pve = map (with_interval t) c.pve }

map-ne_nil : (t : ℤ) (cs : List Types.PveConfig) → cs ≢ [] → map (with_interval t) cs ≢ []
map-ne_nil t [] h = λ e. h refl
map-ne_nil t (c ∷ cs) h = λ e. cc

map-PveOk :
    (url_ok : Str → Bool) (t : ℤ) (cs : List Types.PveConfig)
    → All (PveOk url_ok) cs
    → All (PveOk url_ok) (map (with_interval t) cs)
map-PveOk url_ok t [] h = tt
map-PveOk url_ok t (c ∷ cs) h = (h.0, map-PveOk url_ok t cs h.1)

some_negative :
    (n : ℕ) (cs : List Types.PveConfig)
    → cs ≢ []
    → ¬ All (λ p. pos 0 ≤ℤ p.poll_interval) (map (with_interval (negsuc n)) cs)
some_negative n [] h a = h refl
some_negative n (c ∷ cs) h a = omega (arith, a.0)

-- Validation does not look at the poll intervals: whatever configuration it accepts, it accepts the same one
-- with any negative poll interval for its PVE instances, and then a part that main starts panics at its
-- ticker.
pub validate-panics :
    (fl : Float) (url_ok key_ok : Str → Bool) (n : ℕ) (c : Config fl.Carrier)
    → validate fl url_ok c ≡ none
    → (validate fl url_ok (polled_every (negsuc n) c) ≡ none)
      × (¬ All Ticks (started key_ok (polled_every (negsuc n) c)))
validate-panics fl url_ok key_ok n c h =
    let u = (validate_iff fl url_ok c).0 h in
    let t = negsuc n in
    let u' : IsUsable fl url_ok (polled_every t c) = record {
      some_pve = map-ne_nil t c.pve u.some_pve;
      pve = map-PveOk url_ok t c.pve u.pve;
      pbs = u.pbs;
      notifications = u.notifications;
      level = u.level;
      format = u.format;
      history = u.history;
      workers = u.workers;
      cpu_alert = u.cpu_alert;
      guest_alert = u.guest_alert;
      backup_alert = u.backup_alert;
      datastore_alert = u.datastore_alert;
    } in
    (
      (validate_iff fl url_ok (polled_every t c)).1 u',
      λ k. some_negative n c.pve u.some_pve ((started-Ticks_iff key_ok (polled_every t c)).0 k).0,
    )
