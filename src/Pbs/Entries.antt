-- ===== src/Pbs/Entries.antt =====
-- `Collect` of internal/collector/pbs.go: which entries of datastores a poll leaves in the cache.
use glint.Common.{
  ℕ, Option, none, some, List, [], ◌∷◌, ◌≡◌, refl, ap, arith, ◌==◌, if◌then◌else◌, any, fold,
}
use glint.Common.Text.{Str, str_eq, str_eq_iff}
use glint.Common.Dict.{Dict, lookup, lookup-insert, str_key}
use glint.Model.{Backup, DatastoreStatus}
use glint.Cache.{Cache, update_datastores, update_backups, update_tasks, set_last_poll}
use glint.Pbs
use glint.Pbs.{
  ApiReply, PbsApi, Usage, status_error, no_answer, got, StoreCall, status_of, nothing_known,
  collect_named, collect_datastores, note_tasks,
}

-- The first of two results that is there.
abbrev pub or_else {ℓ} : {A : Type ℓ} → Option A → Option A → Option A
or_else none d = d
or_else (some a) d = some a

pub or_else-none {ℓ} : {A : Type ℓ} (o : Option A) → or_else o none ≡ o
or_else-none none = refl
or_else-none (some a) = refl

module _ {F : Type 0} (pbs : Str) (api : PbsApi) where
  -- What a reply makes of a datastore's entry.
  abbrev pub entry : Str → ApiReply Usage → Option (DatastoreStatus F)
  entry name no_answer = none
  entry name (status_error code) =
      if code == 403 then some (status_of pbs api name nothing_known) else none
  entry name (got u) = some (status_of pbs api name u)

  collect_named-lookup :
      (n k : Str) (m : Dict Str (DatastoreStatus F))
      → lookup k (collect_named pbs api n m) ≡ (
          if str_eq n k
          then or_else (entry n (api.datastore_status n)) (lookup k m)
          else lookup k m)
  unfolding collect_named
  collect_named-lookup n k m = from (api.datastore_status n) refl
    where
      from :
          (r : ApiReply Usage)
          → api.datastore_status n ≡ r
          → lookup k (collect_named pbs api n m) ≡ (
              if str_eq n k
              then or_else (entry n (api.datastore_status n)) (lookup k m)
              else lookup k m)
      from no_answer e = rw e (ground arith)
      from (status_error code) e =
          rw e (ground (arith, lookup-insert n k (status_of pbs api n nothing_known) m))
      from (got u) e = rw e (ground (arith, lookup-insert n k (status_of pbs api n u) m))

  pub names-lookup :
      (k : Str) (ns : List Str) (m : Dict Str (DatastoreStatus F))
      → lookup k (fold (collect_named pbs api) ns m) ≡ (
          if any (λ n. str_eq n k) ns
          then or_else (entry k (api.datastore_status k)) (lookup k m)
          else lookup k m)
  unfolding fold
  names-lookup k [] m = refl
  names-lookup k (n ∷ ns) m = ground (
    arith,
    names-lookup k ns (collect_named pbs api n m),
    collect_named-lookup n k m,
    str_eq_iff n k,
    λ (e : n ≡ k). ap (λ x. entry x (api.datastore_status x)) e,
  )

module _ {F : Type 0} (pbs : Str) (api : PbsApi) where
  note_tasks-datastores : (c : Cache F) → (note_tasks pbs api c).datastores ≡ c.datastores
  unfolding note_tasks update_tasks
  note_tasks-datastores c = ground arith

  lookup-update_datastores :
      (m : Dict Str Backup) (stores : Dict Str (DatastoreStatus F)) (c : Cache F)
      → lookup pbs (update_backups pbs m (update_datastores pbs stores c)).datastores ≡ some stores
  unfolding update_backups update_datastores
  lookup-update_datastores m stores c =
      ground (arith, lookup-insert pbs pbs stores c.datastores, str_eq_iff pbs pbs)

  -- A poll leaves the datastores that it has in the cache.
  pub collect-datastores :
      (ns : List Str) (now : ℕ) (c : Cache F) (stores : Dict Str (DatastoreStatus F))
      → collect_datastores pbs api ns ≡ some stores
      → (c' : Cache F) × (calls : List (StoreCall F)) × (Pbs.collect pbs api ns now c
          ≡ some (c', calls))
        × (lookup pbs c'.datastores ≡ some stores)
  unfolding Pbs.collect
  collect-datastores ns now c stores e =
      let m = Pbs.collect_backups pbs api stores in
      rw (e, Pbs.collect)
        (
          _,
          _,
          refl,
          unfold set_last_poll in
              rw (note_tasks-datastores (update_backups pbs m (update_datastores pbs stores c)))
                (lookup-update_datastores m stores c),
        )

  pub configured_stores :
      (ns : List Str) (first : Str) (rest : List Str)
      → ns ≡ first ∷ rest
      → collect_datastores {F = F} pbs api ns ≡ some (fold (collect_named pbs api) ns [])
  unfolding collect_datastores
  configured_stores ns first rest e = rw e refl
