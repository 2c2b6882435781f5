-- ===== src/Collector/Retries.antt =====
-- The ways in which the collector asks for the SMART data of a disk.
use glint.Common.{
  ap, sym, ◌∙◌, ℕ, suc, ◌<◌, ◌≡◌, refl, ◌⊎◌, inl, inr, Bool, true, false, ◌&&◌, not, ◌==◌, Option,
  some, List, [], ◌∷◌, arith, Bool-cases,
}
use glint.Common.Text.{str, str_eq, str_eq_iff}
use glint.Common.Float.{Float}
use glint.Model.{Disk, SmartAttribute}
use glint.Collector.{
  SmartType, auto, sat, scsi, SmartData, Reply, Fallback, again, ignored, surfaced, on_api_error,
  api_error, unreadable, answered, Collected, Choice, take, retry, choose, without_data, finish,
  note_answer, is_ata, is_nvme, collect_smart_with_type, collect_smart,
}
use glint.Collector.Identity.{finish-Keeps}

-- What was asked, the latest first, is a beginning of auto, sat, scsi.
abbrev pub InOrder : List SmartType → Type 0
InOrder l = (l ≡ auto ∷ []) ⊎ ((l ≡ sat ∷ auto ∷ []) ⊎ (l ≡ scsi ∷ sat ∷ auto ∷ []))

-- The way that a retry asks in.
abbrev Next : SmartType → SmartType → Type 0
Next t t' = ((t ≡ auto) × (t' ≡ sat)) ⊎ ((t ≡ sat) × (t' ≡ scsi))

-- The disk of another round: its status and its protocol are those of the disk at the start.
abbrev Same : Disk → Disk → Type 0
Same d d' = (d'.status ≡ d.status) × (d'.protocol ≡ d.protocol)

-- An error, with the status as it was.
abbrev pub Fails : Disk → Collected → Type 0
Fails d c = (c.failed ≡ true) × (c.disk.status ≡ d.status)

-- What a last answer with a status code of an error comes to.
abbrev pub Rejected : Disk → Collected → SmartType → ℕ → Type 0
Rejected d c auto code = Fails d c
Rejected d c sat code = ((code == 400) ≡ false) × Fails d c
Rejected d c scsi code = (c.failed ≡ not (code == 400)) × (c.disk.status ≡ d.status)

abbrev pub is_nil : {A : Type 0} → List A → Bool
is_nil [] = true
is_nil (x ∷ xs) = false

-- An answer after which there is another way to ask: none of the attributes of an ATA disk.
abbrev pub lacks_data : {F : Type 0} → SmartType → Disk → SmartData F → Bool
lacks_data auto d s = is_ata d && is_nil s.attributes
lacks_data sat d s = is_ata d && is_nil s.attributes
lacks_data scsi d s = false

-- What the last reply, to the given way, comes to.
abbrev pub Ended : {F : Type 0} → Disk → Collected → SmartType → Reply F → Type 0
Ended d c t unreadable = Fails d c
Ended d c t (api_error code) = Rejected d c t code
Ended d c t (answered s) = (c.failed ≡ false) × (c.disk.status < 8) × (lacks_data t d s ≡ false)

error-again : (t t' : SmartType) (code : ℕ) → on_api_error t code ≡ again t' → Next t t'
unfolding on_api_error
error-again auto t' code h = ground arith
error-again sat t' code h = ground arith
error-again scsi t' code h = ground arith

error-ignored :
    (t : SmartType) (code : ℕ) (d0 d : Disk) (asked : List SmartType)
    → on_api_error t code ≡ ignored
    → d.status ≡ d0.status
    → Rejected d0 (record { disk = d; failed = false; asked = asked }) t code
unfolding on_api_error
error-ignored auto code d0 d asked h e = cc
error-ignored sat code d0 d asked h e = ground arith
error-ignored scsi code d0 d asked h e = (ground arith, e)

error-surfaced :
    (t : SmartType) (code : ℕ) (d0 d : Disk) (asked : List SmartType)
    → on_api_error t code ≡ surfaced
    → d.status ≡ d0.status
    → Rejected d0 (record { disk = d; failed = true; asked = asked }) t code
unfolding on_api_error
error-surfaced auto code d0 d asked h e = (refl, e)
error-surfaced sat code d0 d asked h e = (ground arith, (refl, e))
error-surfaced scsi code d0 d asked h e = (ground arith, e)

module _ (fl : Float) where
  open fl use {Carrier}

  -- A retry asks in the next way.
  choose-retry :
      (t t' : SmartType) (d : Disk) (s : SmartData Carrier) → choose fl t d s ≡ retry t' → Next t t'
  unfolding choose without_data
  choose-retry auto t' d s h = ground arith
  choose-retry sat t' d s h = ground arith
  choose-retry scsi t' d s h = ground arith

  ata-nvme : (d : Disk) → is_ata d ≡ true → is_nvme d ≡ false
  unfolding is_ata is_nvme str str_eq
  ata-nvme d h =
      let e : d.protocol ≡ str "ata" = (str_eq_iff d.protocol (str "ata")).0 h in rw e refl

  not_nil : (s : SmartData Carrier) → ¬ (s.attributes ≡ []) → is_nil s.attributes ≡ false
  not_nil s = from s.attributes
    where
      from : {A : Type 0} (xs : List A) → ¬ (xs ≡ []) → is_nil xs ≡ false
      from [] h = absurd (h refl)
      from (x ∷ xs) h = refl

  is_ata-Same : (d0 d : Disk) → Same d0 d → is_ata d0 ≡ is_ata d
  unfolding is_ata
  is_ata-Same d0 d same = ap (λ p. str_eq p (str "ata")) (sym same.1)

  choose-nil :
      (d : Disk) (s : SmartData Carrier)
      → is_ata d ≡ true
      → s.attributes ≡ []
      → (choose fl auto (note_answer fl s d) s ≡ retry sat)
        × (choose fl sat (note_answer fl s d) s ≡ retry scsi)
  unfolding choose without_data note_answer is_ata is_nvme
  choose-nil d s t n = let nvme = ata-nvme d t in (ground (arith, nvme), ground (arith, nvme))

  -- An answer that is taken does not lack the data.
  choose-take :
      (t : SmartType) (d0 d : Disk) (s : SmartData Carrier) (attrs : List SmartAttribute)
      → Same d0 d
      → choose fl t (note_answer fl s d) s ≡ take attrs
      → lacks_data t d0 s ≡ false
  choose-take scsi d0 d s attrs same h = refl
  choose-take auto d0 d s attrs same h = elim (Bool-cases (is_ata d)) [
    | inr f ↦ let e : is_ata d0 ≡ false = is_ata-Same d0 d same ∙ f in rw e refl
    | inl t ↦ rw (is_ata-Same d0 d same ∙ t) (not_nil s (λ n. cc ((choose-nil d s t n).0, h)))
  ]
  choose-take sat d0 d s attrs same h = elim (Bool-cases (is_ata d)) [
    | inr f ↦ let e : is_ata d0 ≡ false = is_ata-Same d0 d same ∙ f in rw e refl
    | inl t ↦ rw (is_ata-Same d0 d same ∙ t) (not_nil s (λ n. cc ((choose-nil d s t n).1, h)))
  ]

  module _ (ask : SmartType → Reply Carrier) where
    abbrev pub EndedAt : Disk → Collected → List SmartType → Type 0
    EndedAt d c [] = ⊥
    EndedAt d c (t ∷ asked) = Ended d c t (ask t)

    -- There is a result, what was asked for it is in order, and the last reply decides it.
    abbrev Answers : Disk → Option Collected → Type 0
    Answers d o = (c : Collected) × (o ≡ some c) × InOrder c.asked × EndedAt d c c.asked

    -- One way's round, where the next one's answers.
    round-Answers :
        (n : ℕ) (asked : List SmartType) (t : SmartType) (d0 d : Disk)
        → Same d0 d
        → InOrder (t ∷ asked)
        → ((t' : SmartType) (d' : Disk)
            → Next t t'
            → Same d0 d'
            → Answers d0 (collect_smart_with_type fl ask n (t ∷ asked) d' t'))
        → Answers d0 (collect_smart_with_type fl ask (suc n) asked d t)
    unfolding collect_smart_with_type
    round-Answers n asked t d0 d same o next = from (ask t) refl
      where
        rejected :
            (code : ℕ) (f : Fallback)
            → ask t ≡ api_error code
            → on_api_error t code ≡ f
            → Answers d0 (collect_smart_with_type fl ask (suc n) asked d t)
        rejected code (again t') e h =
            rw (e, h, collect_smart_with_type) (next t' d (error-again t t' code h) same)
        rejected code ignored e h = (
          record { disk = d; failed = false; asked = t ∷ asked },
          rw (e, h, collect_smart_with_type) refl,
          o,
          rw e (error-ignored t code d0 d (t ∷ asked) h same.0),
        )
        rejected code surfaced e h = (
          record { disk = d; failed = true; asked = t ∷ asked },
          rw (e, h, collect_smart_with_type) refl,
          o,
          rw e (error-surfaced t code d0 d (t ∷ asked) h same.0),
        )

        chosen :
            (s : SmartData Carrier) (c : Choice)
            → ask t ≡ answered s
            → choose fl t (note_answer fl s d) s ≡ c
            → Answers d0 (collect_smart_with_type fl ask (suc n) asked d t)
        chosen s (take attrs) e h = (
          record { disk = finish attrs (note_answer fl s d); failed = false; asked = t ∷ asked },
          rw (e, h, collect_smart_with_type) refl,
          o,
          rw e (
            refl,
            (finish-Keeps (note_answer fl s d).wwn attrs (note_answer fl s d) refl).1,
            choose-take t d0 d s attrs same h,
          ),
        )
        chosen s (retry t') e h =
            rw (e, h, collect_smart_with_type)
              (next t' (note_answer fl s d) (choose-retry t t' (note_answer fl s d) s h)
                (unfold note_answer in same))

        from :
            (r : Reply Carrier)
            → ask t ≡ r
            → Answers d0 (collect_smart_with_type fl ask (suc n) asked d t)
        from unreadable e = (
          record { disk = d; failed = true; asked = t ∷ asked },
          rw (e, collect_smart_with_type) refl,
          o,
          rw e (refl, same.0),
        )
        from (api_error code) e = rejected code (on_api_error t code) e refl
        from (answered s) e = chosen s (choose fl t (note_answer fl s d) s) e refl

    cascade : (d : Disk) → Answers d (collect_smart fl ask d)
    unfolding collect_smart
    cascade d =
        round-Answers 2 [] auto d d (refl, refl) (inl refl)
          (λ t d' m same. elim m [
            | inr (i, j) ↦ absurd (ground (arith, i))
            | inl (i, j) ↦ rw j (
                round-Answers 1 (auto ∷ []) sat d d' same (inr (inl refl)) (λ t' d2 m' same2.
                  elim m' [
                    | inl (i', j') ↦ absurd (ground (arith, i'))
                    | inr (i', j') ↦ rw j' (
                        round-Answers 0 (sat ∷ auto ∷ []) scsi d d2 same2 (inr (inr refl))
                          (λ t2 d3 m2 same3. absurd (ground (arith, m2))))
                  ]))
          ])

    -- The fuel is enough, whatever the API answers: it is asked at most three times, in the order auto, sat,
    -- scsi, and the collection comes to an end.
    pub collect_smart-InOrder :
        (d : Disk) → (c : Collected) × (collect_smart fl ask d ≡ some c) × InOrder c.asked
    collect_smart-InOrder d = let (c, e, o, ended) = cascade d in (c, e, o)

    -- The reply to the last way that was asked decides how the collection of a disk ends. It is an error, with
    -- the status that the disk began with, if that reply is none or an error of the API, but for the error 400
    -- to scsi, which leaves no error and the same status; a 400 to sat is never the last reply. If the last
    -- reply has been decoded, there is no error, the status is one of verdicts, below 8, and the reply was not
    -- one to auto or sat without attributes for an ATA disk.
    pub collect_smart-EndedAt :
        (d : Disk) → (c : Collected) × (collect_smart fl ask d ≡ some c) × EndedAt d c c.asked
    collect_smart-EndedAt d = let (c, e, o, ended) = cascade d in (c, e, ended)
