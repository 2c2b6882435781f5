-- ===== src/Dashboard/Latest.antt =====
-- The backups of a guest on the dashboard (templates/helpers.go).
use mathlib.Core.List.{Memᴰ}
use mathlib.Core.List.Memᴰ
use mathlib.Core.List.Memᴰ.{head}
use glint.Common.{
  ◌≡◌, refl, ◌↔◌, ◌⊎◌, inl, inr, Bool, true, List, [], ◌∷◌, ◌++◌, arith, All, All-Mem, All-map,
  Bool-cases, filter,
}
use glint.Common.Int.{ℤ, pos, leb_ℤ}
use glint.Common.Text.{Str, str, str_eq, str_eq_iff, show_int}
use glint.Common.Text.Affix.{has_suffix_iff}
use glint.Common.Dict.{Dict}
use glint.Common.Sorting.{Mem-filter, Mem-sort_slice, Sorted, ltb_ℤ_asym, sort_slice-Sorted}
use glint.Model.{Backup}
use glint.Widget.{nested}
use glint.Dashboard.{backup_id_matches_vmid}
use glint.Dashboard.Lists.{backups_for_guest, latest_backup_time, newer}

-- The backup id is the VMID, or it ends in a dash and the VMID.
abbrev pub IsIdOf : ℤ → Str → Type 0
IsIdOf vmid id = (id ≡ show_int vmid) ⊎ ((kind : Str) × (id ≡ kind ++ b'-' ∷ show_int vmid))

-- A backup of the guest that the snapshot holds.
abbrev pub IsBackupOf : Dict Str (Dict Str Backup) → ℤ → Backup → Type 0
IsBackupOf backups vmid b = Memᴰ b (nested backups) × IsIdOf vmid b.backup_id

backup_id_matches_vmid_iff :
    (vmid : ℤ) (id : Str) → (backup_id_matches_vmid id (show_int vmid) ≡ true) ↔ IsIdOf vmid id
unfolding backup_id_matches_vmid str
backup_id_matches_vmid_iff vmid id =
    let same = str_eq_iff id (show_int vmid) in
    let ends = has_suffix_iff id (b'-' ∷ show_int vmid) in
    elim (Bool-cases (str_eq id (show_int vmid))) [
      | inl e ↦ (λ _. inl (same.0 e), λ _. rw e refl)
      | inr n ↦ (
        λ h. inr (ends.0 (ground (arith, h, n))),
        λ h. elim h [ inl e ↦ let there = same.1 e in cc (there, n) | inr e ↦ rw n (ends.1 e) ],
      )
    ]

backups_for_guest_iff :
    (backups : Dict Str (Dict Str Backup)) (vmid : ℤ) (b : Backup)
    → Memᴰ b (backups_for_guest backups vmid) ↔ IsBackupOf backups vmid b
unfolding backups_for_guest
backups_for_guest_iff backups vmid b =
    let p : Backup → Bool = λ x. backup_id_matches_vmid x.backup_id (show_int vmid) in
    let s = Mem-sort_slice newer b (filter p (nested backups)) in
    let q = Mem-filter p b (nested backups) in
    let i = backup_id_matches_vmid_iff vmid b.backup_id in
    (λ m. let n = q.0 (s.0 m) in (n.0, i.0 n.1), λ h. s.1 (q.1 (h.0, i.1 h.1)))

backups_for_guest-Sorted :
    (backups : Dict Str (Dict Str Backup)) (vmid : ℤ)
    → Sorted newer (backups_for_guest backups vmid)
unfolding backups_for_guest newer
backups_for_guest-Sorted backups vmid =
    sort_slice-Sorted newer (λ x y h. ltb_ℤ_asym y.backup_time x.backup_time h)
      (filter (λ x. backup_id_matches_vmid x.backup_id (show_int vmid)) (nested backups))

-- No backup of a sorted list is newer than its first.
first-newest :
    (x : Backup) (l : List Backup)
    → Sorted newer (x ∷ l)
    → All (λ b. leb_ℤ b.backup_time x.backup_time ≡ true) l
unfolding newer
first-newest x [] h = tt
first-newest x (y ∷ l) h =
    (ground (arith, h.0), All-map (λ b k. ground (arith, h.0, k)) l (first-newest y l h.1))

-- What a time says of the backups of a guest: there is none and it is 0, or it is the time of one and no later one exists.
abbrev pub IsLatest : Dict Str (Dict Str Backup) → ℤ → ℤ → Type 0
IsLatest backups vmid t =
    (((b : Backup) → IsBackupOf backups vmid b → ⊥) × (t ≡ pos 0))
    ⊎ (((b : Backup) × IsBackupOf backups vmid b × (b.backup_time ≡ t))
        × ((b : Backup) → IsBackupOf backups vmid b → leb_ℤ b.backup_time t ≡ true))

-- LatestBackupTime gives, of the backups of all instances and datastores whose backup ID is the guest's VMID or ends
-- in a dash and the VMID, the time of the latest, and 0 if there is none.
pub latest_backup_time-IsLatest :
    (backups : Dict Str (Dict Str Backup)) (vmid : ℤ)
    → IsLatest backups vmid (latest_backup_time backups vmid)
unfolding latest_backup_time
latest_backup_time-IsLatest backups vmid = from (backups_for_guest backups vmid) refl
  where
    from :
        (l : List Backup)
        → backups_for_guest backups vmid ≡ l
        → IsLatest backups vmid (latest_backup_time backups vmid)
    from [] e =
        rw (e, latest_backup_time)
          (inl ((λ b h. Memᴰ.not-nil (rw e at ((backups_for_guest_iff backups vmid b).1 h))), refl))
    from (x ∷ l) e =
        let first = first-newest x l (rw e at (backups_for_guest-Sorted backups vmid)) in
        let bound : All (λ b. leb_ℤ b.backup_time x.backup_time ≡ true) (x ∷ l) =
          (ground arith, first) in
        rw (e, latest_backup_time)
          (inr (
            (x, (backups_for_guest_iff backups vmid x).0 (rw e (head refl)), refl),
            λ b h.
                All-Mem (λ y. leb_ℤ y.backup_time x.backup_time ≡ true) b (x ∷ l) bound
                  (rw e at ((backups_for_guest_iff backups vmid b).1 h)),
          ))
