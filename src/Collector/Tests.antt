-- ===== src/Collector/Tests.antt =====
-- Disks of an API that knows little about them.
use glint.Common.{◌≡◌, refl, false, some, List, [], ◌∷◌, map, All}
use glint.Common.Int.{ℤ, pos}
use glint.Common.Text.{Str, str, str_eq}
use glint.Common.Whole.{whole}
use glint.Smart.Ata.{nil}
use glint.Widget.Tests.{disk}
use glint.Collector.{
  SmartType, auto, sat, scsi, SmartData, Reply, api_error, answered, Collected, collect_smart,
  is_ata, is_nvme,
}
use glint.Collector.Retries.{EndedAt, InOrder, collect_smart-InOrder, collect_smart-EndedAt}
use glint.Collector.Disks.{RawDisk, collect_disks}
use glint.Collector.Identity.{identities, IsSettled, collect_disks-identities}

abbrev empty : SmartData ℤ
empty = record { health = str "PASSED"; wearout = nil; attributes = []; text = [] }

abbrev ask : SmartType → Reply ℤ
ask auto = answered empty
ask sat = api_error 400
ask scsi = api_error 400

abbrev raw : Str → RawDisk
raw wwn = record {
  dev_path = str "/dev/sda";
  model = str "m";
  serial = str "unknown";
  wwn = wwn;
  size = pos 1;
  disk_type = str "hdd";
  rpm = pos 7200;
}

abbrev listed : List RawDisk
listed = raw (str "w") ∷ raw (str "unknown") ∷ []

collect_smart-InOrder_example :
    (c : Collected) × (collect_smart whole ask (disk 0) ≡ some c) × InOrder c.asked
collect_smart-InOrder_example = collect_smart-InOrder whole ask (disk 0)

collect_smart-EndedAt_example :
    (c : Collected) × (collect_smart whole ask (disk 0) ≡ some c)
    × EndedAt whole ask (disk 0) c c.asked
collect_smart-EndedAt_example = collect_smart-EndedAt whole ask (disk 0)

-- The API has no attributes and rejects both other ways: no error, and the status as it was.
unread :
    collect_smart whole ask (disk 0)
    ≡ some (record {
      disk = record (disk 0) { health = str "PASSED" };
      failed = false;
      asked = scsi ∷ sat ∷ auto ∷ [];
    })
unfolding collect_smart glint.Collector.collect_smart_with_type glint.Collector.choose
    glint.Collector.without_data glint.Collector.note_answer glint.Collector.read_wearout
    glint.Collector.on_api_error is_ata is_nvme str str_eq
unread = refl

collect_disks-identities_example :
    let ds = collect_disks whole (λ path. ask) (str "pve") (str "n1") 7 listed in
    (map (λ d. d.wwn) ds ≡ identities listed) × All IsSettled ds
collect_disks-identities_example =
    collect_disks-identities whole (λ path. ask) (str "pve") (str "n1") 7 listed
