-- ===== src/Cache/Copies.antt =====
-- Copies of nodes on the heap: fresh addresses, the same content.
use glint.Common.{
  ℕ, ◌+◌, ◌≤◌, ◌<◌, ◌≡◌, refl, sym, ◌∙◌, inl, inr, none, some, [], ◌∷◌, arith, All, All-map,
  Option-cases,
}
use glint.Common.Text.{Str}
use glint.Common.Dict.{Dict, lookup, nat_key}
use glint.Model.{Node}
use glint.Cache.{
  Heap, Cache, alloc, copy_nodes, copy_instances, snapshot, view_nodes, view_instances, view,
}

-- Every address of a map satisfies the predicate.
abbrev pub AllRefs : (ℕ → Type 0) → Dict Str ℕ → Type 0
AllRefs P = All (λ e. P e.1)

abbrev pub AllInstanceRefs : (ℕ → Type 0) → Dict Str (Dict Str ℕ) → Type 0
AllInstanceRefs P = All (λ e. AllRefs P e.1)

pub AllInstanceRefs-map :
    {P Q : ℕ → Type 0} (f : (p : ℕ) → P p → Q p) (m : Dict Str (Dict Str ℕ))
    → AllInstanceRefs P m
    → AllInstanceRefs Q m
AllInstanceRefs-map f m = All-map (λ e. All-map (λ x. f x.1) e.1) m

-- The copies have addresses between the old end of the heap and the new one.
abbrev pub Between : ℕ → ℕ → ℕ → Type 0
Between a b p = (a ≤ p) × (p < b)

abbrev pub Below : ℕ → ℕ → Type 0
Below b p = p < b

module _ {F : Type 0} where
  -- Nothing that was allocated has changed.
  pub record Extends (h h' : Heap F) : Type 0 where
    pub grows : h.next ≤ h'.next
    pub keeps : (p : ℕ) → p < h.next → lookup p h'.cells ≡ lookup p h.cells

  Extends-refl : (h : Heap F) → Extends h h
  Extends-refl h = record { grows = omega arith; keeps = λ p l. refl }

  pub Extends-trans : {h h' h2 : Heap F} → Extends h h' → Extends h' h2 → Extends h h2
  Extends-trans e f = record {
    grows = omega (arith, e.grows, f.grows);
    keeps = λ p l. f.keeps p (omega (arith, e.grows)) ∙ e.keeps p l;
  }

  pub alloc-Extends : (n : Node F) (h : Heap F) → Extends h (alloc n h).1
  unfolding alloc lookup
  alloc-Extends n h = record { grows = omega arith; keeps = λ p l. ground arith }

  pub alloc-next : (n : Node F) (h : Heap F) → (alloc n h).1.next ≡ h.next + 1
  unfolding alloc
  alloc-next n h = refl

  pub lookup-alloc : (n : Node F) (h : Heap F) → lookup h.next (alloc n h).1.cells ≡ some n
  unfolding alloc lookup
  lookup-alloc n h = ground arith

  module _ (k : Str) (p : ℕ) (m : Dict Str ℕ) (h : Heap F) where
    copy_nodes-dangling : lookup p h.cells ≡ none → copy_nodes ((k, p) ∷ m) h ≡ copy_nodes m h
    unfolding copy_nodes
    copy_nodes-dangling e = rw (e, copy_nodes)

    copy_nodes-found :
        (n : Node F)
        → lookup p h.cells ≡ some n
        → copy_nodes ((k, p) ∷ m) h
          ≡ ((k, h.next) ∷ (copy_nodes m (alloc n h).1).0, (copy_nodes m (alloc n h).1).1)
    unfolding copy_nodes alloc
    copy_nodes-found n e = rw (e, copy_nodes)

  pub copy_nodes-Extends : (m : Dict Str ℕ) (h : Heap F) → Extends h (copy_nodes m h).1
  copy_nodes-Extends [] h = unfold copy_nodes in Extends-refl h
  copy_nodes-Extends ((k, p) ∷ m) h = elim (Option-cases (lookup p h.cells)) [
    | inl e ↦ rw (copy_nodes-dangling k p m h e) (copy_nodes-Extends m h)
    | inr (n, e) ↦
        rw (copy_nodes-found k p m h n e)
          (Extends-trans (alloc-Extends n h) (copy_nodes-Extends m (alloc n h).1))
  ]

  copy_nodes-Between :
      (m : Dict Str ℕ) (h : Heap F) (a b : ℕ)
      → a ≤ h.next
      → (copy_nodes m h).1.next ≤ b
      → AllRefs (Between a b) (copy_nodes m h).0
  copy_nodes-Between [] h a b la lb = unfold copy_nodes in tt
  copy_nodes-Between ((k, p) ∷ m) h a b la lb = elim (Option-cases (lookup p h.cells)) [
    | inl e ↦
        let q = copy_nodes-dangling k p m h e in rw q (copy_nodes-Between m h a b la (rw q at lb))
    | inr (n, e) ↦
        let q = copy_nodes-found k p m h n e in
        let h' = (alloc n h).1 in
        let ext = copy_nodes-Extends m h' in
        let lb' : (copy_nodes m h').1.next ≤ b = rw q at lb in
        rw q (
          (la, omega (arith, ext.grows, alloc-next n h, lb')),
          copy_nodes-Between m h' a b (omega (arith, alloc-next n h)) lb',
        )
  ]

  -- A map shows the same nodes on two heaps that agree at its addresses.
  view_nodes-agree :
      (m : Dict Str ℕ) (h h' : Heap F)
      → AllRefs (λ p. lookup p h'.cells ≡ lookup p h.cells) m
      → view_nodes h' m ≡ view_nodes h m
  unfolding view_nodes
  view_nodes-agree [] h h' a = refl
  view_nodes-agree ((k, p) ∷ m) h h' a = ground (arith, view_nodes-agree m h h' a.1, a.0)

  pub view_nodes-Extends :
      (m : Dict Str ℕ) (h h' : Heap F)
      → Extends h h'
      → AllRefs (Below h.next) m
      → view_nodes h' m ≡ view_nodes h m
  view_nodes-Extends m h h' e b = view_nodes-agree m h h' (All-map (λ x l. e.keeps x.1 l) m b)

  pub view_nodes-found :
      (k : Str) (p : ℕ) (m : Dict Str ℕ) (h : Heap F) (n : Node F)
      → lookup p h.cells ≡ some n
      → view_nodes h ((k, p) ∷ m) ≡ (k, n) ∷ view_nodes h m
  unfolding view_nodes
  view_nodes-found k p m h n e = rw (e, view_nodes)

  view_nodes-dangling :
      (k : Str) (p : ℕ) (m : Dict Str ℕ) (h : Heap F)
      → lookup p h.cells ≡ none
      → view_nodes h ((k, p) ∷ m) ≡ view_nodes h m
  unfolding view_nodes
  view_nodes-dangling k p m h e = rw (e, view_nodes)

  -- On the heap with the copies the copied map shows what the original showed.
  view_nodes-copy_nodes :
      (m : Dict Str ℕ) (h : Heap F)
      → AllRefs (Below h.next) m
      → view_nodes (copy_nodes m h).1 (copy_nodes m h).0 ≡ view_nodes h m
  view_nodes-copy_nodes [] h b = unfold copy_nodes view_nodes in refl
  view_nodes-copy_nodes ((k, p) ∷ m) h b = elim (Option-cases (lookup p h.cells)) [
    | inl e ↦
        rw (copy_nodes-dangling k p m h e)
          (view_nodes-copy_nodes m h b.1 ∙ sym (view_nodes-dangling k p m h e))
    | inr (n, e) ↦
        let h' = (alloc n h).1 in
        let h2 = (copy_nodes m h').1 in
        let m' = (copy_nodes m h').0 in
        let ext = copy_nodes-Extends m h' in
        let low = alloc-Extends n h in
        let b' : AllRefs (Below h'.next) m = All-map (λ x l. omega (arith, low.grows)) m b.1 in
        let fresh : lookup h.next h2.cells ≡ some n =
          ext.keeps h.next (omega (arith, alloc-next n h)) ∙ lookup-alloc n h in
        rw (copy_nodes-found k p m h n e) (
          cc (
            view_nodes-found k h.next m' h2 n fresh,
            view_nodes-found k p m h n e,
            view_nodes-copy_nodes m h' b',
            view_nodes-Extends m h h' low b.1,
          ))
  ]

  copy_instances-Extends :
      (m : Dict Str (Dict Str ℕ)) (h : Heap F) → Extends h (copy_instances m h).1
  unfolding copy_instances
  copy_instances-Extends [] h = Extends-refl h
  copy_instances-Extends ((i, m) ∷ rest) h =
      Extends-trans (copy_nodes-Extends m h) (copy_instances-Extends rest (copy_nodes m h).1)

  copy_instances-Between :
      (m : Dict Str (Dict Str ℕ)) (h : Heap F) (a b : ℕ)
      → a ≤ h.next
      → (copy_instances m h).1.next ≤ b
      → AllInstanceRefs (Between a b) (copy_instances m h).0
  unfolding copy_instances
  copy_instances-Between [] h a b la lb = tt
  copy_instances-Between ((i, m) ∷ rest) h a b la lb =
      let h' = (copy_nodes m h).1 in
      let later = copy_instances-Extends rest h' in
      let ext = copy_nodes-Extends m h in
      (
        copy_nodes-Between m h a b la (omega (arith, later.grows)),
        copy_instances-Between rest h' a b (omega (arith, ext.grows)) lb,
      )

  -- A map shows the same instances on two heaps that agree at its addresses.
  pub view_instances-agree :
      (m : Dict Str (Dict Str ℕ)) (h h' : Heap F)
      → AllInstanceRefs (λ p. lookup p h'.cells ≡ lookup p h.cells) m
      → view_instances h' m ≡ view_instances h m
  unfolding view_instances
  view_instances-agree [] h h' a = refl
  view_instances-agree ((i, m) ∷ rest) h h' a =
      cc (view_nodes-agree m h h' a.0, view_instances-agree rest h h' a.1)

  view_instances-copy_instances :
      (m : Dict Str (Dict Str ℕ)) (h : Heap F)
      → AllInstanceRefs (Below h.next) m
      → view_instances (copy_instances m h).1 (copy_instances m h).0 ≡ view_instances h m
  unfolding copy_instances view_instances
  view_instances-copy_instances [] h b = refl
  view_instances-copy_instances ((i, m) ∷ rest) h b =
      let h' = (copy_nodes m h).1 in
      let h2 = (copy_instances rest h').1 in
      let ext = copy_nodes-Extends m h in
      let b' : AllInstanceRefs (Below h'.next) rest =
        AllInstanceRefs-map (λ p l. omega (arith, ext.grows)) rest b.1 in
      let copied = copy_nodes-Between m h 0 h'.next (omega arith) (omega arith) in
      cc (
        view_nodes-Extends (copy_nodes m h).0 h' h2 (copy_instances-Extends rest h')
            (All-map (λ x l. l.1) (copy_nodes m h).0 copied),
        view_nodes-copy_nodes m h b.0,
        view_instances-copy_instances rest h' b',
        view_instances-agree rest h h' (AllInstanceRefs-map (λ p l. ext.keeps p l) rest b.1),
      )

  -- What a snapshot does, on a cache whose addresses are allocated.
  pub snapshot_lem :
      (c : Cache F) (h : Heap F)
      → AllInstanceRefs (Below h.next) c.nodes
      → Extends h (snapshot c h).1
        × AllInstanceRefs (Between h.next (snapshot c h).1.next) (snapshot c h).0.nodes
        × (view (snapshot c h).1 (snapshot c h).0 ≡ view h c)
  unfolding snapshot view
  snapshot_lem c h b = (
    copy_instances-Extends c.nodes h,
    copy_instances-Between c.nodes h h.next (copy_instances c.nodes h).1.next (omega arith)
        (omega arith),
    rw (view_instances-copy_instances c.nodes h b) refl,
  )
