-- ===== src/Pve/Workers.antt =====
-- The workers of a poll (internal/collector/pve.go, the function that `Collect` submits for each node): what
-- each brings to its locked sections, what these do, and the orders in which they may come.
use glint.Common.{Bool, none, some, List, [], ◌∷◌, ◌++◌, if◌then◌else◌, fold}
use glint.Common.Int.{ℤ}
use glint.Common.Text.{Str}
use glint.Common.Float.{Float}
use glint.Common.Dict.{Dict, insert, str_key, int_key}
use glint.Model.{Node, Guest, Disk}
use glint.Collector.Disks.{collect_disks}
use glint.Pve.Parse.{PveApi, parse_node_status, collect_guests}

-- One locked section, with the data that it stores.
pub data Event (F : Type 0) : Type 0 where
  node_read : Str → Node F → Event F
  guests_read : List (Guest F) → Event F
  disks_read : List Disk → Event F

-- The maps that the workers fill.
pub record Gathered (F : Type 0) : Type 0 where
  pub node_map : Dict Str (Node F)
  pub guest_map : Dict ℤ (Guest F)
  pub disk_list : List Disk

abbrev pub nothing : {F : Type 0} → Gathered F
nothing = record { node_map = []; guest_map = []; disk_list = [] }

unfoldable pub apply_event : {F : Type 0} → Event F → Gathered F → Gathered F
apply_event (node_read name n) g = record g { node_map = insert name n g.node_map }
apply_event (guests_read gs) g = record g { guest_map = fold (λ x. insert x.vmid x) gs g.guest_map }
apply_event (disks_read ds) g = record g { disk_list = g.disk_list ++ ds }

module _ (fl : Float) (api : PveApi fl.Carrier) (inst cluster : Str) where
  open fl use {Carrier}

  -- The disks of a node, if they are due and listed.
  unfoldable pub disk_events : Bool → Str → List (Event Carrier)
  disk_events due name = elim (api.disks name) [
    | none ↦ []
    | some raws ↦
        if due
        then disks_read (collect_disks fl (api.smart name) inst name (api.disk_clock name) raws)
          ∷ []
        else []
  ]

  -- The sections of the worker of a node; one whose status cannot be read ends at once.
  unfoldable pub work : Bool → Str → List (Event Carrier)
  unfolding disk_events
  work due name = elim (api.node_status name) [
    | none ↦ []
    | some raw ↦
        node_read name (parse_node_status fl api.parse_float inst name raw)
        ∷ guests_read (collect_guests api inst cluster name)
        ∷ disk_events due name
  ]

-- The orders in which two sequences can be merged.
pub data Merge {A : Type 0} : List A → List A → List A → Type 0 where
  none_left : Merge [] [] []
  first : {x : A} {xs ys zs : List A} → Merge xs ys zs → Merge (x ∷ xs) ys (x ∷ zs)
  second : {y : A} {xs ys zs : List A} → Merge xs ys zs → Merge xs (y ∷ ys) (y ∷ zs)

-- The orders in which the workers' sections can come: each worker's own in its order.
pub data Interleaved {A : Type 0} : List (List A) → List A → Type 0 where
  no_worker : Interleaved [] []
  joined :
      {w : List A} {ws : List (List A)} {es es' : List A}
      → Interleaved ws es
      → Merge w es es'
      → Interleaved (w ∷ ws) es'
