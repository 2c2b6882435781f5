-- ===== src/Collector/Disks.antt =====
-- `collectDisks` of internal/collector/pve.go, on the decoded disk list, and what its disks are.
use glint.Common.{ℕ, Bool, ◌||◌, Option, none, some, List, [], ◌∷◌, if◌then◌else◌}
use glint.Common.Int.{ℤ, pos, eqb_ℤ}
use glint.Common.Text.{Str, str, str_eq, is_empty, trim_space, has_prefix}
use glint.Common.Float.{Float}
use glint.Model.{Disk, status_passed, status_internal_error}
use glint.Collector.{SmartType, Reply, Collected, collect_smart}

pub record RawDisk : Type 0 where
  pub dev_path : Str
  pub model : Str
  pub serial : Str
  pub wwn : Str
  pub size : ℤ
  pub disk_type : Str
  pub rpm : ℤ

unfoldable pub pve_normalize_sentinel : Str → Str
pve_normalize_sentinel s =
    let t = trim_space s in
    if is_empty t || str_eq t (str "unknown") || str_eq t (str "none") || str_eq t (str "-")
    then []
    else s

-- The first text that is not empty.
abbrev or_text : Str → Str → Str
or_text s rest = if is_empty s then rest else s

unfoldable pub identity : RawDisk → Str
identity rd =
    or_text (pve_normalize_sentinel rd.wwn) (or_text (pve_normalize_sentinel rd.serial) rd.dev_path)

unfoldable pub is_nvme_path : RawDisk → Bool
is_nvme_path rd = has_prefix rd.dev_path (str "/dev/nvme")

unfoldable pub type_of_disk : RawDisk → Str
unfolding is_nvme_path
type_of_disk rd =
    if is_nvme_path rd
    then str "nvme"
    else or_text (pve_normalize_sentinel rd.disk_type)
        (if eqb_ℤ rd.rpm (pos 0) then str "ssd" else str "hdd")

unfoldable pub make_disk : Str → Str → ℕ → RawDisk → Disk
unfolding is_nvme_path
make_disk inst node now rd = record {
  instance_name = inst;
  node = node;
  wwn = identity rd;
  dev_path = rd.dev_path;
  model = rd.model;
  serial = rd.serial;
  disk_type = type_of_disk rd;
  protocol = if is_nvme_path rd then str "nvme" else str "ata";
  size_bytes = rd.size;
  health = [];
  status = status_passed;
  temperature = none;
  power_on_hours = none;
  wearout = none;
  attributes = [];
  first_seen = now;
  last_seen = now;
}

-- The disk after `collectSMART`, whose error becomes the status.
unfoldable pub settle : Disk → Option Collected → Disk
settle d none = d
settle d (some c) = if c.failed then record c.disk { status = status_internal_error } else c.disk

module _ (fl : Float) (ask : Str → SmartType → Reply fl.Carrier) where
  unfoldable pub collect_disk : Disk → Disk
  unfolding settle
  collect_disk d = settle d (collect_smart fl (ask d.dev_path) d)

  unfoldable pub collect_disks : Str → Str → ℕ → List RawDisk → List Disk
  unfolding collect_disk
  collect_disks inst node now [] = []
  collect_disks inst node now (rd ∷ rest) =
      let disks = collect_disks inst node now rest in
      let disk = collect_disk (make_disk inst node now rd) in
      if is_empty (identity rd) then disks else disk ∷ disks
