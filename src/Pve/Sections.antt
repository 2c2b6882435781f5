-- ===== src/Pve/Sections.antt =====
-- The locked sections of a poll (internal/collector/pve.go) in any order, and what they leave in the maps.
use glint.Common.{
  ◌≡◌, refl, ap, ◌∙◌, Bool, false, ◌||◌, Option, some, List, [], ◌∷◌, arith, All, any, fold,
  if◌then◌else◌,
}
use glint.Common.Int.{ℤ, eqb_ℤ}
use glint.Common.Text.{Str, str_eq, str_eq_iff}
use glint.Common.Dict.{All-insert, Dict, insert, lookup, lookup-insert, str_key, int_key, eqb_ℤ_iff}
use glint.Model.{Node, Guest}
use glint.Pve.Workers.{
  Event, node_read, guests_read, disks_read, Gathered, apply_event, Merge, none_left, first, second,
  Interleaved, no_worker, joined,
}

module _ {A : Type 0} where
  All-Merge {κ} :
      (P : A → Type κ) {xs ys zs : List A} → Merge xs ys zs → All P xs → All P ys → All P zs
  All-Merge P none_left hx hy = tt
  All-Merge P (first m) hx hy = (hx.0, All-Merge P m hx.1 hy)
  All-Merge P (second m) hx hy = (hy.0, All-Merge P m hx hy.1)

  -- What holds of every section of every worker holds of every section.
  pub All-Interleaved {κ} :
      (P : A → Type κ) {ws : List (List A)} {es : List A}
      → Interleaved ws es
      → All (All P) ws
      → All P es
  All-Interleaved P no_worker h = tt
  All-Interleaved P (joined i m) h = All-Merge P m h.0 (All-Interleaved P i h.1)

  any-Merge :
      (p : A → Bool) {xs ys zs : List A} → Merge xs ys zs → any p zs ≡ (any p xs || any p ys)
  any-Merge p none_left = refl
  any-Merge p (first m) = ground (arith, any-Merge p m)
  any-Merge p (second m) = ground (arith, any-Merge p m)

  -- A section is among those of the schedule exactly when it is some worker's.
  pub any-Interleaved :
      (p : A → Bool) {ws : List (List A)} {es : List A}
      → Interleaved ws es
      → any p es ≡ any (any p) ws
  any-Interleaved p no_worker = refl
  any-Interleaved p (joined {w} {ws} {es} i m) =
      any-Merge p m ∙ ap (λ b. any p w || b) (any-Interleaved p i)

module _ {F : Type 0} where
  -- A node section stores what the directory has under its name.
  abbrev pub NodeFrom : (Str → Option (Node F)) → Event F → Type 0
  NodeFrom f (node_read name n) = f name ≡ some n
  NodeFrom f (guests_read gs) = Unit
  NodeFrom f (disks_read ds) = Unit

  abbrev pub reads_node : Str → Event F → Bool
  reads_node k (node_read name n) = str_eq name k
  reads_node k (guests_read gs) = false
  reads_node k (disks_read ds) = false

  pub lookup-node_map :
      (f : Str → Option (Node F)) (k : Str) (es : List (Event F)) (g : Gathered F)
      → All (NodeFrom f) es
      → lookup k (fold apply_event es g).node_map
        ≡ (if any (reads_node k) es then f k else lookup k g.node_map)
  unfolding fold apply_event
  lookup-node_map f k [] g h = refl
  lookup-node_map f k (node_read name n ∷ es) g h = ground (
    arith,
    lookup-node_map f k es (apply_event (node_read name n) g) h.1,
    lookup-insert name k n g.node_map,
    str_eq_iff name k,
    h.0,
  )
  lookup-node_map f k (guests_read gs ∷ es) g h =
      lookup-node_map f k es (apply_event (guests_read gs) g) h.1
  lookup-node_map f k (disks_read ds ∷ es) g h =
      lookup-node_map f k es (apply_event (disks_read ds) g) h.1

  -- A guest section stores what the directory has under its VMIDs.
  abbrev pub GuestsFrom : (ℤ → Option (Guest F)) → Event F → Type 0
  GuestsFrom f (guests_read gs) = All (λ x. f x.vmid ≡ some x) gs
  GuestsFrom f (node_read name n) = Unit
  GuestsFrom f (disks_read ds) = Unit

  abbrev pub reads_guest : ℤ → Event F → Bool
  reads_guest k (guests_read gs) = any (λ x. eqb_ℤ x.vmid k) gs
  reads_guest k (node_read name n) = false
  reads_guest k (disks_read ds) = false

  lookup-guests :
      (f : ℤ → Option (Guest F)) (k : ℤ) (gs : List (Guest F)) (m : Dict ℤ (Guest F))
      → All (λ x. f x.vmid ≡ some x) gs
      → lookup k (fold (λ x. insert x.vmid x) gs m)
        ≡ (if any (λ x. eqb_ℤ x.vmid k) gs then f k else lookup k m)
  unfolding fold
  lookup-guests f k [] m h = refl
  lookup-guests f k (x ∷ gs) m h = ground (
    arith,
    lookup-guests f k gs (insert x.vmid x m) h.1,
    lookup-insert x.vmid k x m,
    eqb_ℤ_iff x.vmid k,
    h.0,
  )

  pub lookup-guest_map :
      (f : ℤ → Option (Guest F)) (k : ℤ) (es : List (Event F)) (g : Gathered F)
      → All (GuestsFrom f) es
      → lookup k (fold apply_event es g).guest_map
        ≡ (if any (reads_guest k) es then f k else lookup k g.guest_map)
  unfolding fold apply_event
  lookup-guest_map f k [] g h = refl
  lookup-guest_map f k (node_read name n ∷ es) g h =
      lookup-guest_map f k es (apply_event (node_read name n) g) h.1
  lookup-guest_map f k (guests_read gs ∷ es) g h = ground (
    arith,
    lookup-guest_map f k es (apply_event (guests_read gs) g) h.1,
    lookup-guests f k gs g.guest_map h.0,
  )
  lookup-guest_map f k (disks_read ds ∷ es) g h =
      lookup-guest_map f k es (apply_event (disks_read ds) g) h.1

module _ {F : Type 0} where
  -- What a node section stores satisfies a predicate.
  abbrev pub Brings : (Node F → Type 0) → Event F → Type 0
  Brings P (node_read name n) = P n
  Brings P (guests_read gs) = Unit
  Brings P (disks_read ds) = Unit

  pub node_map-All :
      (P : Node F → Type 0) (es : List (Event F)) (g : Gathered F)
      → All (Brings P) es
      → All (λ e. P e.1) g.node_map
      → All (λ e. P e.1) (fold apply_event es g).node_map
  unfolding fold apply_event
  node_map-All P [] g h k = k
  node_map-All P (node_read name n ∷ es) g h k =
      node_map-All P es (apply_event (node_read name n) g) h.1
        (All-insert P name n g.node_map h.0 k)
  node_map-All P (guests_read gs ∷ es) g h k =
      node_map-All P es (apply_event (guests_read gs) g) h.1 k
  node_map-All P (disks_read ds ∷ es) g h k =
      node_map-All P es (apply_event (disks_read ds) g) h.1 k
