-- ===== src/Dashboard/Chips.antt =====
-- The chips and counts of the dashboard beside those of the widget and the rules of the alerter.
use glint.Common.{
  ℕ, ◌+◌, ◌<◌, ◌≡◌, refl, Bool, true, false, ◌||◌, List, [], ◌∷◌, arith, if◌then◌else◌, ◌==◌, fold,
}
use glint.Common.Text.{str, str_eq}
use glint.Common.Float.{Float}
use glint.Model.{Guest, Disk}
use glint.Cache.{Snapshot}
use glint.Smart.Flags.{has_flag, same, same-eq, holds_under, holds_under-at}
use glint.Widget.{DiskStats, GuestStats, nested, count_disk, count_guest, handle_widget, no_guests}
use glint.Dashboard.{disk_status_class, count_by_status, count_guests_by_status}
use glint.Alerter.Evaluate.{smart_failed, scrutiny_raised}

crit : ℕ → Bool
crit status = str_eq (disk_status_class status) (str "chip-crit")

-- The tests of the alerter against those of the widget, at one status.
raised_test : ℕ → Bool
unfolding same
raised_test s =
    same (has_flag s 1 || (has_flag s 2 || has_flag s 4))
      (if s == 0 then false else has_flag s 5 || has_flag s 2)

raised_table : holds_under 32 raised_test ≡ true
unfolding raised_test same holds_under has_flag
raised_table = refl

raised_eq :
    (s : ℕ)
    → s < 32
    → (has_flag s 1 || (has_flag s 2 || has_flag s 4))
      ≡ (if s == 0 then false else has_flag s 5 || has_flag s 2)
unfolding raised_test
raised_eq s h = same-eq _ _ (holds_under-at 32 raised_test s raised_table h)

crit_table : holds_under 32 (λ s. same (crit s) (if s == 0 then false else has_flag s 5)) ≡ true
unfolding crit same holds_under has_flag disk_status_class str str_eq
crit_table = refl

crit_eq : (s : ℕ) → s < 32 → crit s ≡ (if s == 0 then false else has_flag s 5)
crit_eq s h =
    same-eq _ _ (
      holds_under-at 32 (λ s. same (crit s) (if s == 0 then false else has_flag s 5)) s crit_table
        h)

-- A disk whose status has only the model's five flags is counted as failed by the widget exactly when the
-- dashboard shows it with the critical chip.
failed-disk_status_class :
    (d : Disk) (s : DiskStats)
    → d.status < 32
    → (count_disk d s).failed
      ≡ (if str_eq (disk_status_class d.status) (str "chip-crit") then s.failed + 1 else s.failed)
unfolding count_disk crit
failed-disk_status_class d s h = ground (arith, crit_eq d.status h)

-- A disk whose status has only the model's five flags and whose health text is not FAILED is counted as
-- failed or as warned by the widget exactly when it passes one of the two tests of the alerter's rule on
-- disks.
pub failed-check_disk :
    (d : Disk) (s : DiskStats)
    → d.status < 32
    → str_eq d.health (str "FAILED") ≡ false
    → (count_disk d s).failed + (count_disk d s).warned ≡ (
        if smart_failed d || scrutiny_raised d
        then s.failed + s.warned + 1
        else s.failed + s.warned)
unfolding count_disk smart_failed scrutiny_raised
failed-check_disk d s h healthy = ground (arith, raised_eq d.status h)

module _ {F : Type 0} where
  counts_agree :
      (gs : List (Guest F)) (p : ℕ × ℕ) (s : GuestStats)
      → p.0 ≡ s.running
      → p.0 + p.1 ≡ s.total
      → ((fold count_by_status gs p).0 ≡ (fold count_guest gs s).running)
        × ((fold count_by_status gs p).0 + (fold count_by_status gs p).1
            ≡ (fold count_guest gs s).total)
  unfolding fold
  counts_agree [] p s h k = (h, k)
  counts_agree (g ∷ gs) p s h k =
      counts_agree gs (count_by_status g p) (count_guest g s)
        (unfold count_by_status count_guest in ground arith)
        (unfold count_by_status count_guest in ground arith)

-- The dashboard and the widget count the same running guests, and the dashboard's stopped ones are all
-- others.
count_guests_by_status-handle_widget :
    (fl : Float) (snap : Snapshot fl.Carrier)
    → let g = (handle_widget fl snap).guests in
      let (running, others) = count_guests_by_status snap.guests in
      (running ≡ g.running) × (running + others ≡ g.total)
unfolding handle_widget count_guests_by_status
count_guests_by_status-handle_widget fl snap =
    counts_agree (nested snap.guests) (0, 0) no_guests refl refl
