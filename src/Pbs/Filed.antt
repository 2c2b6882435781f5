-- ===== src/Pbs/Filed.antt =====
-- The keys under which a poll of a PBS instance files its backups.
use mathlib.Core.List.{append_assoc}
use glint.Common.{
  ◌≡◌, sym, ap, ◌∙◌, inl, inr, Option, some, List, [], ◌∷◌, All, map, fold, Bool-cases,
}
use glint.Common.Text.{Str, str, str_eq, str_eq_iff, cut, cut-append}
use glint.Common.Text.Split.{IsPiece}
use glint.Common.Dict.{Dict, lookup, str_key, lookup-insert}
use glint.Model.{Backup}
use glint.Pbs.{RawSnapshot, backup_of, backup_key, is_newer, keep_latest}

-- The name of a datastore has no slash.
abbrev pub IsName : Str → Type 0
IsName = IsPiece b'/'

-- Every backup stands under its own key, and its datastore has such a name.
abbrev pub IsFiled : Dict Str Backup → Type 0
IsFiled m = (k : Str) (b : Backup) → lookup k m ≡ some b → (backup_key b ≡ k) × IsName b.datastore

keep_latest-IsFiled :
    (b : Backup) (m : Dict Str Backup) → IsName b.datastore → IsFiled m → IsFiled (keep_latest b m)
unfolding keep_latest
keep_latest-IsFiled b m n h k b' = elim (Bool-cases (is_newer b (lookup (backup_key b) m))) [
  | inr e ↦ rw e (h k b')
  | inl e ↦ rw e (
      rw (lookup-insert (backup_key b) k b m) (elim (Bool-cases (str_eq (backup_key b) k)) [
        | inr f ↦ rw f (h k b')
        | inl f ↦
            rw f (λ q. let same : b ≡ b' = cc in rw (← same) ((str_eq_iff (backup_key b) k).0 f, n))
      ]))
]

pub fold-IsFiled :
    (bs : List Backup) (m : Dict Str Backup)
    → All (λ b. IsName b.datastore) bs
    → IsFiled m
    → IsFiled (fold keep_latest bs m)
unfolding fold
fold-IsFiled [] m n h = h
fold-IsFiled (b ∷ bs) m n h = fold-IsFiled bs (keep_latest b m) n.1 (keep_latest-IsFiled b m n.0 h)

cut-backup_key :
    (b : Backup) → IsName b.datastore → cut (backup_key b) b'/' ≡ some (b.datastore, b.backup_id)
unfolding backup_key str
cut-backup_key b n =
    rw (append_assoc b.datastore (b'/' ∷ []) b.backup_id)
      (cut-append b'/' b.datastore b.backup_id n)

-- A key tells the datastore and the id.
pub key-inj :
    (b b' : Backup)
    → IsName b.datastore
    → IsName b'.datastore
    → backup_key b' ≡ backup_key b
    → (b'.datastore ≡ b.datastore) × (b'.backup_id ≡ b.backup_id)
key-inj b b' n n' e =
    let same : ◌≡◌ {A = Option (Str × Str)} (some (b'.datastore, b'.backup_id))
        (some (b.datastore, b.backup_id)) =
      sym (cut-backup_key b' n') ∙ ap (λ k. cut k b'/') e ∙ cut-backup_key b n in
    (cc, cc)

pub map-IsName :
    (pbs store : Str) (raws : List RawSnapshot)
    → IsName store
    → All (λ b. IsName b.datastore) (map (backup_of pbs store) raws)
unfolding backup_of
map-IsName pbs store [] n = tt
map-IsName pbs store (r ∷ raws) n = (n, map-IsName pbs store raws n)
