-- ===== src/Cache/Polls.antt =====
-- What a poll of nodes leaves in the cache (internal/cache/cache.go).
use glint.Common.{ℕ, ◌≡◌, refl, ap, ◌∙◌, Option, none, some, [], ◌∷◌, arith, if◌then◌else◌}
use glint.Common.Text.{Str, str_eq}
use glint.Common.Dict.{Dict, lookup, insert, lookup-insert, nat_key, str_key}
use glint.Model.{Node}
use glint.Cache.{Heap, Cache, alloc, update_nodes, view, view_instances, view_nodes}
use glint.Cache.Copies.{
  AllInstanceRefs, AllInstanceRefs-map, Below, lookup-alloc, alloc-next, view_nodes-found,
  view_instances-agree,
}
use glint.Cache.Isolation.{polled, make_nodes, make_nodes-Extends, apply_op}

module _ {F : Type 0} where
  view_entry : Heap F → Option (Dict Str ℕ) → Option (Dict Str (Node F))
  view_entry h none = none
  view_entry h (some m) = some (view_nodes h m)

  lookup-view_instances :
      (h : Heap F) (j : Str) (m : Dict Str (Dict Str ℕ))
      → lookup j (view_instances h m) ≡ view_entry h (lookup j m)
  unfolding lookup view_instances view_entry
  lookup-view_instances h j [] = refl
  lookup-view_instances h j ((i, m) ∷ rest) = ground (arith, lookup-view_instances h j rest)

  view_nodes-make_nodes :
      (ns : Dict Str (Node F)) (h : Heap F)
      → view_nodes (make_nodes ns h).1 (make_nodes ns h).0 ≡ ns
  unfolding make_nodes
  view_nodes-make_nodes [] h = unfold view_nodes in refl
  view_nodes-make_nodes ((k, n) ∷ ns) h =
      let h' = (alloc n h).1 in
      let ext = make_nodes-Extends ns h' in
      let fresh : lookup h.next (make_nodes ns h').1.cells ≡ some n =
        ext.keeps h.next (omega (arith, alloc-next n h)) ∙ lookup-alloc n h in
      view_nodes-found k h.next (make_nodes ns h').0 (make_nodes ns h').1 n fresh
      ∙ ap (λ (m : Dict Str (Node F)). (k, n) ∷ m) (view_nodes-make_nodes ns h')

  -- On a cache whose addresses are allocated: after a poll of an instance the cache shows for that instance the polled nodes and no others, with the
  -- temperatures that the poll gave them; what it shows for any other instance has not changed.
  pub lookup-polled :
      (i j : Str) (ns : Dict Str (Node F)) (c : Cache F) (h : Heap F)
      → AllInstanceRefs (Below h.next) c.nodes
      → lookup j (view (apply_op (polled i ns) (c, h)).1 (apply_op (polled i ns) (c, h)).0).nodes
        ≡ (if str_eq i j then some ns else lookup j (view h c).nodes)
  unfolding apply_op update_nodes view
  lookup-polled i j ns c h below =
      let h' = (make_nodes ns h).1 in
      let m = (make_nodes ns h).0 in
      let ext = make_nodes-Extends ns h in
      let same =
        view_instances-agree c.nodes h h'
          (AllInstanceRefs-map (λ p l. ext.keeps p l) c.nodes below) in
      unfold view_entry in
      ground (
        arith,
        lookup-view_instances h' j (insert i m c.nodes),
        lookup-insert i j m c.nodes,
        view_nodes-make_nodes ns h,
        lookup-view_instances h' j c.nodes,
        same,
      )
