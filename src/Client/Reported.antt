-- ===== src/Client/Reported.antt =====
-- What the answers of a PBS host come to in the cache, from the response to the entry of a datastore.
use glint.Common.{
  ℕ, Option, none, some, List, [], ◌∷◌, ◌++◌, ◌≡◌, refl, ap, ◌==◌, if◌then◌else◌, any, fold, inl,
  inr, Bool-cases,
}
use glint.Common.Text.{Str, str, str_eq}
use glint.Common.Result.{Result, ok, err, ◌>>=◌}
use glint.Common.Dict.{Dict, lookup, str_key}
use glint.Model.{DatastoreStatus}
use glint.Cache.{Cache}
use glint.Pbs
use glint.Pbs.{
  ApiReply, PbsApi, Usage, status_error, no_answer, got, StoreCall, status_of, nothing_known,
  collect_named, collect_datastores, note_tasks,
}
use glint.Client.{
  Answer, Network, Request, invalid, unreachable, broken, response, take, body_limit, request,
  http_client, send, received, as_api_error,
}
use glint.Client.Pbs.{
  PbsConfig, PbsJson, new_pbs_collector, pbs_authorization, pbs_served, pbs_api, pbs_api_get,
  collect_datastore_status, reply_of, decoded,
}
use glint.Pbs.Entries.{or_else-none, entry, names-lookup, collect-datastores, configured_stores}

-- A datastore of the instance with its figures.
abbrev figures : {F : Type 0} → Str → Str → Usage → DatastoreStatus F
figures pbs name u = record {
  pbs_instance = pbs;
  name = name;
  total_bytes = u.total;
  used_bytes = u.used;
  avail_bytes = u.avail;
  dedup_ratio = none;
  est_full_date = none;
  error = u.error;
}

-- The entry that an answer to the request for a datastore's status should make.
abbrev pub expected : {F : Type 0} → PbsJson → Str → Str → Answer → Option (DatastoreStatus F)
expected json pbs name (response code body) =
    if code == 200
    then elim (json.datastore_status (take body_limit body)) [
      | err text ↦ none
      | ok u ↦ some (figures pbs name u)
    ]
    else if code == 403
    then some (figures pbs name nothing_known)
    else none
expected json pbs name _ = none

abbrev pub status_request : PbsConfig → Str → Request
status_request cfg name =
    request (http_client cfg.insecure) (pbs_authorization cfg) cfg.host
      (str "/api2/json/" ++ (str "admin/datastore/" ++ name ++ str "/status"))

module _ (network : Network) (json : PbsJson) (cfg : PbsConfig) (clock : ℕ) where
  abbrev served : PbsApi
  served = pbs_served network json (new_pbs_collector cfg) clock

  -- What a status request that is answered in this way replies.
  abbrev replied : (op path : Str) → Answer → ApiReply Usage
  replied op path a = reply_of (
      received op path a >>= λ body.
      decoded (str "parsing datastore status") (json.datastore_status body))

  decoded-expected :
      {F : Type 0} (name : Str) (r : Result Str Usage)
      → entry {F = F} cfg.name served name (reply_of (decoded (str "parsing datastore status") r))
        ≡ (elim r [ err text ↦ none | ok u ↦ some (figures cfg.name name u) ])
  unfolding decoded reply_of as_api_error status_of
  decoded-expected name (err text) = refl
  decoded-expected name (ok u) = refl

  replied-expected :
      {F : Type 0} (op path name : Str) (a : Answer)
      → entry {F = F} cfg.name served name (replied op path a) ≡ expected json cfg.name name a
  unfolding received reply_of decoded as_api_error status_of
  replied-expected op path name (invalid text) = refl
  replied-expected op path name (unreachable text) = refl
  replied-expected op path name (broken text) = refl
  replied-expected op path name (response code body) = elim (Bool-cases (code == 200)) [
    | inl fine ↦ rw fine (decoded-expected name (json.datastore_status (take body_limit body)))
    | inr other ↦ rw other refl
  ]

  entry-expected :
      {F : Type 0} (name : Str)
      → entry {F = F} cfg.name served name (served.datastore_status name)
        ≡ expected json cfg.name name (network (status_request cfg name))
  unfolding pbs_served pbs_api pbs_api_get new_pbs_collector collect_datastore_status send
  entry-expected name =
      replied-expected (str "collectDatastoreStatus")
        (str "/api2/json/" ++ (str "admin/datastore/" ++ name ++ str "/status")) name
        (network (status_request cfg name))

  -- A poll with configured datastores ends without an error, whatever the host answers, and the entry that
  -- it leaves in the cache for a datastore follows from the answer to the request for its status: for one
  -- that is not configured there is none; a response 200 that decodes gives the figures, a response 403 an
  -- entry without figures, and any other response or failure no entry.
  pub collect-expected :
      {F : Type 0} (name first : Str) (rest : List Str) (now : ℕ) (c : Cache F)
      → cfg.datastores ≡ first ∷ rest
      → (c' : Cache F) × (calls : List (StoreCall F)) × (stores : Dict Str (DatastoreStatus F))
        × (Pbs.collect cfg.name served cfg.datastores now c ≡ some (c', calls))
        × (lookup cfg.name c'.datastores ≡ some stores)
        × (lookup name stores ≡ (
            if any (λ n. str_eq n name) cfg.datastores
            then expected json cfg.name name (network (status_request cfg name))
            else none))
  unfolding lookup
  collect-expected name first rest now c e =
      let stores = fold (collect_named cfg.name served) cfg.datastores [] in
      let (c', calls, ran, kept) =
        collect-datastores cfg.name served cfg.datastores now c stores
          (configured_stores cfg.name served cfg.datastores first rest e) in
      (
        c',
        calls,
        stores,
        ran,
        kept,
        rw (names-lookup cfg.name served name cfg.datastores [], entry-expected name)
            (ap (λ x. if any (λ n. str_eq n name) cfg.datastores then x else none)
              (or_else-none (expected json cfg.name name (network (status_request cfg name))))),
      )
