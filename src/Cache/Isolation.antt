-- ===== src/Cache/Isolation.antt =====
-- The aliasing of nodes between the cache, its snapshots and the collectors (internal/cache/cache.go).
use glint.Common.{
  ℕ, ◌≤◌, ◌<◌, ◌≡◌, refl, ap, ◌∙◌, ◌⊎◌, inl, inr, List, [], ◌∷◌, arith, All-map, Option-cases,
}
use glint.Common.Text.{Str}
use glint.Common.Dict.{All-insert, All-lookup, Dict, lookup, lookup-insert, nat_key, str_key}
use glint.Model.{Node}
use glint.Cache.{
  Heap, Cache, alloc, update_nodes, update_node_temperature, write_temperature, snapshot, view,
}
use glint.Cache.Copies.{
  AllRefs, AllInstanceRefs, AllInstanceRefs-map, Below, Between, Extends, Extends-trans,
  alloc-Extends, view_instances-agree, snapshot_lem,
}

-- What the collectors and the snapshots do with nodes: a poll makes new ones and hands the map of their
-- addresses to the cache, a temperature is written through the cache's pointer, and a snapshot copies.
pub data Op (F : Type 0) : Type 0 where
  polled : Str → Dict Str (Node F) → Op F
  measured : Str → Str → F → Op F
  copied : Op F

-- An address of the cache: allocated, and none of a range.
abbrev pub Outside : ℕ → ℕ → ℕ → ℕ → Type 0
Outside a b n p = (p < n) × ((p < a) ⊎ (b ≤ p))

module _ {F : Type 0} where
  -- The nodes of a poll, freshly allocated.
  unfoldable pub make_nodes : Dict Str (Node F) → Heap F → Dict Str ℕ × Heap F
  unfolding alloc
  make_nodes [] h = ([], h)
  make_nodes ((k, n) ∷ m) h =
      let (p, h') = alloc n h in let (m', h2) = make_nodes m h' in ((k, p) ∷ m', h2)

  unfoldable pub apply_op : Op F → Cache F × Heap F → Cache F × Heap F
  unfolding make_nodes
  apply_op (polled i ns) (c, h) = let (m, h') = make_nodes ns h in (update_nodes i m c, h')
  apply_op (measured i n t) (c, h) = (c, update_node_temperature i n t c h)
  apply_op copied (c, h) = (c, (snapshot c h).1)

  unfoldable pub run : List (Op F) → Cache F × Heap F → Cache F × Heap F
  run [] s = s
  run (o ∷ os) s = run os (apply_op o s)

  pub make_nodes-Extends : (ns : Dict Str (Node F)) (h : Heap F) → Extends h (make_nodes ns h).1
  unfolding make_nodes
  make_nodes-Extends [] h = record { grows = omega arith; keeps = λ p l. refl }
  make_nodes-Extends ((k, n) ∷ ns) h =
      Extends-trans (alloc-Extends n h) (make_nodes-Extends ns (alloc n h).1)

  make_nodes-Between :
      (ns : Dict Str (Node F)) (h : Heap F) (a b : ℕ)
      → a ≤ h.next
      → (make_nodes ns h).1.next ≤ b
      → AllRefs (Between a b) (make_nodes ns h).0
  unfolding make_nodes alloc
  make_nodes-Between [] h a b la lb = tt
  make_nodes-Between ((k, n) ∷ ns) h a b la lb =
      let ext = make_nodes-Extends ns (alloc n h).1 in
      ((la, omega (arith, ext.grows)), make_nodes-Between ns (alloc n h).1 a b (omega arith) lb)

  -- With the addresses from `a` to `b` those of a snapshot: the cache has none of them, and they still
  -- hold what they held on the heap `h₀`.
  pub record IsApart (a b : ℕ) (h₀ : Heap F) (s : Cache F × Heap F) : Type 0 where
    pub allocated : b ≤ s.1.next
    pub apart : AllInstanceRefs (Outside a b s.1.next) s.0.nodes
    pub frame : (p : ℕ) → Between a b p → lookup p s.1.cells ≡ lookup p h₀.cells

  module _ (a b : ℕ) (h₀ : Heap F) (c : Cache F) (h : Heap F) (inv : IsApart a b h₀ (c, h)) where
    Extends-IsApart : (h' : Heap F) → Extends h h' → IsApart a b h₀ (c, h')
    Extends-IsApart h' e = record {
      allocated = omega (arith, e.grows, inv.allocated);
      apart = AllInstanceRefs-map (λ p o. (omega (arith, e.grows, o.0), o.1)) c.nodes inv.apart;
      frame = λ p l. e.keeps p (omega (arith, l.1, inv.allocated)) ∙ inv.frame p l;
    }

    update_nodes-IsApart :
        (i : Str) (m : Dict Str ℕ)
        → AllRefs (Outside a b h.next) m
        → IsApart a b h₀ (update_nodes i m c, h)
    unfolding update_nodes
    update_nodes-IsApart i m o = record {
      allocated = inv.allocated;
      apart = All-insert (AllRefs (Outside a b h.next)) i m c.nodes o inv.apart;
      frame = inv.frame;
    }

    write_temperature-IsApart :
        (p : ℕ) (t : F) → Outside a b h.next p → IsApart a b h₀ (c, write_temperature p t h)
    unfolding write_temperature
    write_temperature-IsApart p t o = elim (Option-cases (lookup p h.cells)) [
      | inl e ↦ rw (e, write_temperature) inv
      | inr (n, e) ↦
          rw (e, write_temperature)
            (record {
              allocated = inv.allocated;
              apart = inv.apart;
              frame = λ q l. rw lookup-insert (ground (arith, inv.frame q l, o.1, l.0, l.1));
            })
    ]

    update_node_temperature-IsApart :
        (i n : Str) (t : F) → IsApart a b h₀ (c, update_node_temperature i n t c h)
    unfolding update_node_temperature
    update_node_temperature-IsApart i n t = elim (Option-cases (lookup i c.nodes)) [
      | inl e ↦ rw (e, update_node_temperature) inv
      | inr (m, e) ↦ elim (Option-cases (lookup n m)) [
        | inl e' ↦ rw (e, e', update_node_temperature) inv
        | inr (p, e') ↦
            rw (e, e', update_node_temperature)
              (write_temperature-IsApart p t (
                All-lookup (Outside a b h.next) n m p
                  (All-lookup (AllRefs (Outside a b h.next)) i c.nodes m inv.apart e) e'))
      ]
    ]

  module _ (a b : ℕ) (h₀ : Heap F) where
    pub apply_op-IsApart :
        (o : Op F) (c : Cache F) (h : Heap F)
        → IsApart a b h₀ (c, h)
        → IsApart a b h₀ (apply_op o (c, h))
    unfolding apply_op
    apply_op-IsApart (polled i ns) c h inv =
        let ext = make_nodes-Extends ns h in
        let h' = (make_nodes ns h).1 in
        let fresh = make_nodes-Between ns h h.next h'.next (omega arith) (omega arith) in
        update_nodes-IsApart a b h₀ c h' (Extends-IsApart a b h₀ c h inv h' ext) i
          (make_nodes ns h).0
          (All-map (λ x l. (l.1, inr (omega (arith, inv.allocated, l.0)))) (make_nodes ns h).0
            fresh)
    apply_op-IsApart (measured i n t) c h inv = update_node_temperature-IsApart a b h₀ c h inv i n t
    apply_op-IsApart copied c h inv =
        Extends-IsApart a b h₀ c h inv (snapshot c h).1
          (snapshot_lem c h (AllInstanceRefs-map (λ p o. o.0) c.nodes inv.apart)).0

    run-IsApart :
        (os : List (Op F)) (s : Cache F × Heap F) → IsApart a b h₀ s → IsApart a b h₀ (run os s)
    unfolding run
    run-IsApart [] s inv = inv
    run-IsApart (o ∷ os) s inv = run-IsApart os (apply_op o s) (apply_op-IsApart o s.0 s.1 inv)

  module _ (c : Cache F) (h : Heap F) (below : AllInstanceRefs (Below h.next) c.nodes) where
    -- A snapshot's addresses are not those of the cache when it is taken.
    pub snapshot-IsApart :
        IsApart h.next (snapshot c h).1.next (snapshot c h).1 (c, (snapshot c h).1)
    snapshot-IsApart =
        let ext = (snapshot_lem c h below).0 in
        record {
          allocated = omega arith;
          apart = AllInstanceRefs-map (λ p l. (omega (arith, ext.grows), inl l)) c.nodes below;
          frame = λ p l. refl;
        }

    -- As long as they are not, the snapshot shows what the cache held.
    pub view-snapshot :
        (s : Cache F × Heap F)
        → IsApart h.next (snapshot c h).1.next (snapshot c h).1 s
        → view s.1 (snapshot c h).0 ≡ view h c
    unfolding view
    view-snapshot s end =
        let (ext, copies, same) = snapshot_lem c h below in
        let h' = (snapshot c h).1 in
        ap (λ (m : Dict Str (Dict Str (Node F))). record (view h' (snapshot c h).0) { nodes = m })
          (view_instances-agree (snapshot c h).0.nodes h' s.1
            (AllInstanceRefs-map end.frame (snapshot c h).0.nodes copies))
        ∙ same

  -- On a cache whose addresses are allocated, a snapshot shows at any later time what the cache held when
  -- it was taken: new polls, temperatures written through the cache's pointers and further snapshots leave
  -- it alone.
  snapshot_isolated :
      (c : Cache F) (h : Heap F) (os : List (Op F))
      → AllInstanceRefs (Below h.next) c.nodes
      → view (run os (c, (snapshot c h).1)).1 (snapshot c h).0 ≡ view h c
  snapshot_isolated c h os below = view-snapshot c h below (run os (c, (snapshot c h).1)) (
      run-IsApart h.next (snapshot c h).1.next (snapshot c h).1 os (c, (snapshot c h).1)
        (snapshot-IsApart c h below))
