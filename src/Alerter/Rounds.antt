-- ===== src/Alerter/Rounds.antt =====
-- Whole rounds, and runs of rounds, as steps.
use glint.Common.{ℕ, ◌+◌, ◌≤◌, ◌≡◌, refl, Option, none, some, List, [], ◌∷◌, arith}
use glint.Common.Int.{ℤ}
use glint.Common.Text.{Str}
use glint.Common.Float.{Float}
use glint.Common.Dict.{
  Dict, lookup, values, str_key, lookup-insert, lookup-erase, lookup-keep_values,
}
use glint.Model.{Guest, Notification}
use glint.Cache.{Snapshot}
use glint.Alerter.Config.{GuestAlert, AlertConfig}
use glint.Alerter.State.{Alerter, fire, mark, clear, cleanup, is_recent, max_age}
use glint.Alerter.Notice.{for_each, if_set}
use glint.Alerter.Evaluate.{
  check_disk, check_nodes, check_guest, check_guests, check_backups, check_datastores, evaluate,
}
use glint.Alerter.Steps.{
  Step, fired, marked, cleared, Steps, here, next, Steps-trans, for_each-Steps, if_set-Steps,
  check_disk-Steps, Allows, nodes-Steps, backups-Steps, datastores-Steps,
}

-- Every noted condition began at most 6 hours before `now`.
abbrev pub IsRecent : ℕ → Alerter → Type 0
IsRecent now a = (k : Str) (t : ℕ) → lookup k a.sustained ≡ some t → now ≤ t + max_age

pub cleanup-IsRecent : (now : ℕ) (a : Alerter) → IsRecent now (cleanup now a)
unfolding cleanup
cleanup-IsRecent now a k t h = ground (arith, lookup-keep_values (is_recent now) k a.sustained)

pub fire-sustained :
    (now : ℕ) (k : Str) (c : ℕ) (n : Notification) (a : Alerter)
    → (fire now k c n a).sustained ≡ a.sustained
unfolding fire
fire-sustained now k c n a = ground arith

module _ {Q : ℕ → Notification → Type 0} {now : ℕ} where
  Step-IsRecent : {a b : Alerter} → Step Q now a b → IsRecent now a → IsRecent now b
  Step-IsRecent (fired k c n a q) h j t e = h j t (rw fire-sustained at e)
  Step-IsRecent (marked k a m) h j t e =
      unfold mark in ground (arith, lookup-insert k j now a.sustained, h j t)
  Step-IsRecent (cleared k a) h j t e =
      unfold clear in ground (arith, lookup-erase k j a.sustained, h j t)

  pub Steps-IsRecent : {a b : Alerter} → Steps Q now a b → IsRecent now a → IsRecent now b
  Steps-IsRecent here h = h
  Steps-IsRecent (next r s) h = Step-IsRecent s (Steps-IsRecent r h)

  -- A loop whose rounds are steps wherever the noted conditions are recent.
  recent_loop-Steps {ℓ} :
      {A : Type ℓ} (f : A → Alerter → Alerter)
      → ((x : A) (a : Alerter) → IsRecent now a → Steps Q now a (f x a))
      → (xs : List A) (a : Alerter) → IsRecent now a
      → Steps Q now a (for_each f xs a)
  unfolding for_each
  recent_loop-Steps f h [] a r = here
  recent_loop-Steps f h (x ∷ xs) a r =
      let s = h x a r in Steps-trans s (recent_loop-Steps f h xs (f x a) (Steps-IsRecent s r))

-- One round's inputs: the instant, the ages that the clock gives to backups, and the snapshot.
pub record Tick (F : Type 0) : Type 0 where
  pub now : ℕ
  pub since : ℤ → ℤ
  pub snap : Snapshot F

module _ (fl : Float) where
  open fl use {Carrier}

  -- The loop of `Run`: a round for each tick.
  unfoldable pub run : AlertConfig Carrier → List (Tick Carrier) → Alerter → Alerter
  run cfg [] a = a
  run cfg (t ∷ ts) a = run cfg ts (evaluate fl cfg t.now t.since t.snap a)

  -- What the rule on guests does, given that noted conditions are recent.
  abbrev pub GuestSteps : (ℕ → Notification → Type 0) → ℕ → AlertConfig Carrier → Type 0
  GuestSteps Q now cfg =
      (c : GuestAlert)
      → cfg.guest_down ≡ some c
      → (cluster : Str) (g : Guest Carrier) (a : Alerter) → IsRecent now a
      → Steps Q now a (check_guest fl now c cluster g a)

  module _ {Q : ℕ → Notification → Type 0} {now : ℕ} (cfg : AlertConfig Carrier) (al : Allows Q cfg)
      (gs : GuestSteps Q now cfg) where
    guests-Steps :
        (c : GuestAlert)
        → cfg.guest_down ≡ some c
        → (x : Str × Dict ℤ (Guest Carrier)) (a : Alerter) → IsRecent now a
        → Steps Q now a (check_guests fl now c x a)
    unfolding check_guests
    guests-Steps c e (cluster, guests) a r =
        recent_loop-Steps (check_guest fl now c cluster) (gs c e cluster) (values guests) a r

    guest_group-Steps :
        (xs : List (Str × Dict ℤ (Guest Carrier))) (o : Option GuestAlert) (a : Alerter)
        → cfg.guest_down ≡ o
        → IsRecent now a
        → Steps Q now a (if_set (λ c. for_each (check_guests fl now c) xs) o a)
    unfolding if_set
    guest_group-Steps xs none a e r = here
    guest_group-Steps xs (some c) a e r =
        recent_loop-Steps (check_guests fl now c) (guests-Steps c e) xs a r

    -- After its cleanup a round is a sequence of allowed steps.
    pub evaluate-Steps :
        (since : ℤ → ℤ) (snap : Snapshot Carrier) (a : Alerter)
        → Steps Q now (cleanup now a) (evaluate fl cfg now since snap a)
    unfolding evaluate
    evaluate-Steps since snap a =
        let s1 =
          for_each-Steps (check_nodes fl now cfg) (nodes-Steps fl cfg al) snap.nodes
            (cleanup now a) in
        let s2 = Steps-trans s1 (
          guest_group-Steps snap.guests cfg.guest_down _ refl
            (Steps-IsRecent s1 (cleanup-IsRecent now a))) in
        let s3 = Steps-trans s2 (
          if_set-Steps (λ c. for_each (check_backups fl now since c) snap.backups) cfg.backup_stale
            (λ c e.
              for_each-Steps (check_backups fl now since c) (backups-Steps fl cfg al since c e)
                snap.backups)
            _) in
        let s4 = Steps-trans s3 (
          if_set-Steps (λ c. for_each (check_disk now c) snap.disks) cfg.disk_smart_failed
            (λ c e.
              for_each-Steps (check_disk now c)
                (check_disk-Steps c (al.smart c e) (al.scrutiny c e)) snap.disks)
            _) in
        Steps-trans s4 (
          if_set-Steps (λ c. for_each (check_datastores fl now c) snap.datastores)
            cfg.datastore_full
            (λ c e.
              for_each-Steps (check_datastores fl now c) (datastores-Steps fl cfg al c e)
                snap.datastores)
            _)
