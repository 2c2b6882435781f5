-- ===== src/Collector/Identity.antt =====
-- Which disks `collectDisks` returns, and with what status.
use glint.Common.{
  ℕ, zero, suc, ◌<◌, ◌≡◌, refl, ◌⊎◌, inl, inr, Bool, true, false, Option, none, some, List, [], ◌∷◌,
  arith, if◌then◌else◌, All, map, fold-keeps, Bool-cases,
}
use glint.Common.Text.{Str, is_empty}
use glint.Common.Float.{Float}
use glint.Model.{Disk, SmartAttribute}
use glint.Smart.Evaluate.{evaluate_disk}
use glint.Smart.Verdicts.{evaluate_disk-lt}
use glint.Collector.{
  SmartType, auto, SmartData, Reply, api_error, unreadable, answered, Fallback, again, ignored,
  surfaced, on_api_error, Collected, Choice, take, retry, choose, note_answer, finish, is_nvme,
  nvme_metric, ata_metric, collect_smart_with_type, collect_smart,
}
use glint.Collector.Disks.{RawDisk, identity, make_disk, settle, collect_disk, collect_disks}

-- What the collection of SMART data keeps: the identity, and a status of verdicts only.
abbrev pub Keeps : Str → Disk → Type 0
Keeps w d = (d.wwn ≡ w) × (d.status < 8)

module _ (w : Str) where
  nvme_metric-Keeps : (a : SmartAttribute) (d : Disk) → Keeps w d → Keeps w (nvme_metric a d)
  unfolding nvme_metric
  nvme_metric-Keeps a d h = ground arith

  ata_metric-Keeps : (a : SmartAttribute) (d : Disk) → Keeps w d → Keeps w (ata_metric a d)
  unfolding ata_metric
  ata_metric-Keeps a d h = ground arith

  metric-Keeps :
      (b : Bool) (a : SmartAttribute) (d : Disk)
      → Keeps w d
      → Keeps w ((if b then nvme_metric else ata_metric) a d)
  metric-Keeps true = nvme_metric-Keeps
  metric-Keeps false = ata_metric-Keeps

  pub finish-Keeps : (attrs : List SmartAttribute) (d : Disk) → d.wwn ≡ w → Keeps w (finish attrs d)
  unfolding finish
  finish-Keeps attrs d h =
      let d' = (evaluate_disk (record d { attributes = attrs })).0 in
      fold-keeps (if is_nvme d' then nvme_metric else ata_metric) (Keeps w)
        (metric-Keeps (is_nvme d')) d'.attributes d'
        (unfold evaluate_disk in h, evaluate_disk-lt (record d { attributes = attrs }))

-- The same of a result.
abbrev KeepsAll : Str → Option Collected → Type 0
KeepsAll w none = Unit
KeepsAll w (some c) = Keeps w c.disk

module _ (fl : Float) (w : Str) (ask : SmartType → Reply fl.Carrier) where
  round-Keeps :
      (n : ℕ) (asked : List SmartType) (d : Disk) (t : SmartType)
      → ((d' : Disk) (t' : SmartType)
          → Keeps w d'
          → KeepsAll w (collect_smart_with_type fl ask n (t ∷ asked) d' t'))
      → Keeps w d
      → KeepsAll w (collect_smart_with_type fl ask (suc n) asked d t)
  unfolding collect_smart_with_type
  round-Keeps n asked d t next h = from (ask t) refl
    where
      rejected :
          (code : ℕ) (f : Fallback)
          → ask t ≡ api_error code
          → on_api_error t code ≡ f
          → KeepsAll w (collect_smart_with_type fl ask (suc n) asked d t)
      rejected code (again t') e i = rw (e, i, collect_smart_with_type) (next d t' h)
      rejected code ignored e i = rw (e, i, collect_smart_with_type) h
      rejected code surfaced e i = rw (e, i, collect_smart_with_type) h

      chosen :
          (s : SmartData fl.Carrier) (c : Choice)
          → ask t ≡ answered s
          → choose fl t (note_answer fl s d) s ≡ c
          → KeepsAll w (collect_smart_with_type fl ask (suc n) asked d t)
      chosen s (take attrs) e i =
          rw (e, i, collect_smart_with_type)
            (finish-Keeps w attrs (note_answer fl s d) (unfold note_answer in h.0))
      chosen s (retry t') e i =
          rw (e, i, collect_smart_with_type)
            (next (note_answer fl s d) t' (unfold note_answer in h))

      from :
          (r : Reply fl.Carrier)
          → ask t ≡ r
          → KeepsAll w (collect_smart_with_type fl ask (suc n) asked d t)
      from unreadable e = rw (e, collect_smart_with_type) h
      from (api_error code) e = rejected code (on_api_error t code) e refl
      from (answered s) e = chosen s (choose fl t (note_answer fl s d) s) e refl

  collect-Keeps :
      (n : ℕ) (asked : List SmartType) (d : Disk) (t : SmartType)
      → Keeps w d
      → KeepsAll w (collect_smart_with_type fl ask n asked d t)
  collect-Keeps zero asked d t h = unfold collect_smart_with_type in tt
  collect-Keeps (suc n) asked d t h =
      round-Keeps n asked d t (λ d' t'. collect-Keeps n (t ∷ asked) d' t') h

-- The status of a collected disk: the mark of an error, or a union of verdicts.
abbrev pub IsSettled : Disk → Type 0
IsSettled d = (d.status ≡ 16) ⊎ (d.status < 8)

settled :
    (w : Str) (d : Disk) (o : Option Collected)
    → Keeps w d
    → KeepsAll w o
    → ((settle d o).wwn ≡ w) × IsSettled (settle d o)
unfolding settle
settled w d none h k = (h.0, inr h.1)
settled w d (some c) h k = elim (Bool-cases c.failed) [
  | inl e ↦ rw e (k.0, inl refl)
  | inr e ↦ rw e (k.0, inr k.1)
]

-- The identities that are not empty.
abbrev pub identities : List RawDisk → List Str
identities [] = []
identities (rd ∷ rest) =
    let ws = identities rest in if is_empty (identity rd) then ws else identity rd ∷ ws

module _ (fl : Float) (ask : Str → SmartType → Reply fl.Carrier) (inst node : Str) (now : ℕ) where
  collect_disk-IsSettled :
      (rd : RawDisk)
      → let d = collect_disk fl ask (make_disk inst node now rd) in
        (d.wwn ≡ identity rd) × IsSettled d
  unfolding collect_disk
  collect_disk-IsSettled rd =
      let d = make_disk inst node now rd in
      let h : Keeps (identity rd) d = unfold make_disk in (refl, omega arith) in
      settled (identity rd) d (collect_smart fl (ask d.dev_path) d) h
        (unfold collect_smart in collect-Keeps fl (identity rd) (ask d.dev_path) 3 [] d auto h)

  -- The collected disks are those of the list that have an identity, in its order and under it, whatever
  -- the API answers about their SMART data; and the status of each is the mark of an internal error or a
  -- union of verdicts, never the one of unknown data.
  pub collect_disks-identities :
      (raw : List RawDisk)
      → let ds = collect_disks fl ask inst node now raw in
        (map (λ d. d.wwn) ds ≡ identities raw) × All IsSettled ds
  unfolding collect_disks
  collect_disks-identities [] = (refl, tt)
  collect_disks-identities (rd ∷ rest) =
      let (ih, all) = collect_disks-identities rest in
      let (same, ok) = collect_disk-IsSettled rd in
      elim (Bool-cases (is_empty (identity rd))) [
        | inl e ↦ rw (e, collect_disks) (ih, all)
        | inr e ↦ rw (e, collect_disks) (rw (same, ih) refl, (ok, all))
      ]
