-- ===== src/Temperature/Highest.antt =====
-- Which temperature `parseSensorsJSON` of internal/collector/temperature.go takes.
use mathlib.Core.List.{Memᴰ}
use mathlib.Core.List.Memᴰ.{head, tail}
use glint.Common.{
  ◌≡◌, refl, sym, ap, ◌∙◌, ◌⊎◌, inl, inr, true, false, Option, none, some, List, [], ◌∷◌, ◌++◌, All,
  fold, Bool-cases, if◌then◌else◌,
}
use glint.Common.Int.{pos}
use glint.Common.Text.{Str}
use glint.Common.Float.{Float}
use glint.Common.Dict.{Dict}
use glint.Temperature.{
  Sensors, is_input, is_relevant_chip, max_temp, note_chip, note_sensor, note_value, parse_sensors,
}

module _ {F : Type 0} where
  -- The temperatures of the inputs of a sensor, of a chip, of the relevant chips.
  unfoldable pub sensor_inputs : Dict Str (Option F) → List F
  sensor_inputs [] = []
  sensor_inputs ((key, none) ∷ rest) = sensor_inputs rest
  sensor_inputs ((key, some t) ∷ rest) =
      let more = sensor_inputs rest in if is_input key then t ∷ more else more

  unfoldable pub chip_inputs : Dict Str (Option (Dict Str (Option F))) → List F
  chip_inputs [] = []
  chip_inputs ((name, none) ∷ rest) = chip_inputs rest
  chip_inputs ((name, some m) ∷ rest) = sensor_inputs m ++ chip_inputs rest

  unfoldable pub inputs : Sensors F → List F
  inputs [] = []
  inputs ((name, none) ∷ rest) = inputs rest
  inputs ((name, some m) ∷ rest) =
      let more = inputs rest in if is_relevant_chip name then chip_inputs m ++ more else more

module _ (fl : Float) where
  open fl use {Carrier, of_int, gt}

  -- One temperature more.
  abbrev higher : Carrier → Option Carrier → Option Carrier
  higher t found = if gt t (max_temp fl found) then some t else found

  fold-append :
      (xs ys : List Carrier) (o : Option Carrier)
      → fold higher (xs ++ ys) o ≡ fold higher ys (fold higher xs o)
  unfolding fold
  fold-append [] ys o = refl
  fold-append (x ∷ xs) ys o = fold-append xs ys (higher x o)

  sensor-inputs :
      (m : Dict Str (Option Carrier)) (o : Option Carrier)
      → fold (note_value fl) m o ≡ fold higher (sensor_inputs m) o
  unfolding fold note_value sensor_inputs
  sensor-inputs [] o = refl
  sensor-inputs ((key, none) ∷ rest) o = sensor-inputs rest o
  sensor-inputs ((key, some t) ∷ rest) o = elim (Bool-cases (is_input key)) [
    | inl e ↦ rw e (sensor-inputs rest (higher t o))
    | inr e ↦ rw e (sensor-inputs rest o)
  ]

  chip-inputs :
      (m : Dict Str (Option (Dict Str (Option Carrier)))) (o : Option Carrier)
      → fold (note_sensor fl) m o ≡ fold higher (chip_inputs m) o
  unfolding fold note_sensor chip_inputs
  chip-inputs [] o = refl
  chip-inputs ((name, none) ∷ rest) o = chip-inputs rest o
  chip-inputs ((name, some m) ∷ rest) o =
      chip-inputs rest (fold (note_value fl) m o)
      ∙ ap (λ z. fold higher (chip_inputs rest) z) (sensor-inputs m o)
      ∙ sym (fold-append (sensor_inputs m) (chip_inputs rest) o)

  sensors-inputs :
      (s : Sensors Carrier) (o : Option Carrier)
      → fold (note_chip fl) s o ≡ fold higher (inputs s) o
  unfolding fold note_chip inputs
  sensors-inputs [] o = refl
  sensors-inputs ((name, none) ∷ rest) o = sensors-inputs rest o
  sensors-inputs ((name, some m) ∷ rest) o = elim (Bool-cases (is_relevant_chip name)) [
    | inl e ↦ rw e (
        sensors-inputs rest (fold (note_sensor fl) m o)
        ∙ ap (λ z. fold higher (inputs rest) z) (chip-inputs m o)
        ∙ sym (fold-append (chip_inputs m) (inputs rest) o))
    | inr e ↦ rw e (sensors-inputs rest o)
  ]

  -- What the result says of the temperatures: the highest of them, or that none is above 0.
  abbrev pub IsHighest : Option Carrier → List Carrier → Type 0
  IsHighest none ts = All (λ x. gt x (of_int (pos 0)) ≡ false) ts
  IsHighest (some t) ts = Memᴰ t ts × (gt t (of_int (pos 0)) ≡ true) × All (λ x. gt x t ≡ false) ts

  module _ (le_trans : (a b c : Carrier) → gt a b ≡ false → gt b c ≡ false → gt a c ≡ false)
      (gt_asym : (a b : Carrier) → gt a b ≡ true → gt b a ≡ false)
      (gt_trans : (a b c : Carrier) → gt a b ≡ true → gt b c ≡ true → gt a c ≡ true) where
    gt_irrefl : (a : Carrier) → gt a a ≡ false
    gt_irrefl a = elim (Bool-cases (gt a a)) [ inl e ↦ gt_asym a a e | inr e ↦ e ]

    -- What the loop makes of a temperature above 0 that it has found, and of those that follow.
    record IsRaised (t₀ : Carrier) (ts : List Carrier) (t : Carrier) : Type 0 where
      result : fold higher ts (some t₀) ≡ some t
      source : (t ≡ t₀) ⊎ Memᴰ t ts
      positive : gt t (of_int (pos 0)) ≡ true
      from_start : gt t₀ t ≡ false
      from_rest : All (λ x. gt x t ≡ false) ts

    raise :
        (ts : List Carrier) (t₀ : Carrier)
        → gt t₀ (of_int (pos 0)) ≡ true
        → (t : Carrier) × IsRaised t₀ ts t
    unfolding fold max_temp
    raise [] t₀ h = (
      t₀,
      record {
        result = refl;
        source = inl refl;
        positive = h;
        from_start = gt_irrefl t₀;
        from_rest = tt;
      },
    )
    raise (x ∷ ts) t₀ h = elim (Bool-cases (gt x t₀)) [
      | inl e ↦
          let (t, r) = raise ts x (gt_trans x t₀ (of_int (pos 0)) e h) in
          (
            t,
            record {
              result = rw e r.result;
              source = inr (elim r.source [ inl q ↦ head q | inr m ↦ tail m ]);
              positive = r.positive;
              from_start = le_trans t₀ x t (gt_asym x t₀ e) r.from_start;
              from_rest = (r.from_start, r.from_rest);
            },
          )
      | inr e ↦
          let (t, r) = raise ts t₀ h in
          (
            t,
            record {
              result = rw e r.result;
              source = elim r.source [ inl q ↦ inl q | inr m ↦ inr (tail m) ];
              positive = r.positive;
              from_start = r.from_start;
              from_rest = (le_trans x t₀ t e r.from_start, r.from_rest);
            },
          )
    ]

    highest : (ts : List Carrier) → IsHighest (fold higher ts none) ts
    unfolding fold max_temp
    highest [] = tt
    highest (x ∷ ts) = elim (Bool-cases (gt x (of_int (pos 0)))) [
      | inl e ↦
          let (t, r) = raise ts x e in
          rw (e, r.result)
            (
              elim r.source [ inl q ↦ head q | inr m ↦ tail m ],
              r.positive,
              (r.from_start, r.from_rest),
            )
      | inr e ↦ rw e (lower e (fold higher ts none) (highest ts))
    ]
      where
        lower :
            gt x (of_int (pos 0)) ≡ false
            → (o : Option Carrier) → IsHighest o ts
            → IsHighest o (x ∷ ts)
        lower e none h = (e, h)
        lower e (some t) h =
            (tail h.0, h.1, (le_trans x (of_int (pos 0)) t e (gt_asym t (of_int (pos 0)) h.1), h.2))

    -- Where the comparison of temperatures is asymmetric, and it and its negation are transitive (as without NaN, which
    -- JSON cannot write): a poll's output gives a temperature exactly where some input of a relevant chip is above 0, and
    -- then the highest of these inputs, in whatever order the chips, sensors and values are visited.
    pub parse_sensors-IsHighest :
        (sensors : Sensors Carrier) → IsHighest (parse_sensors fl sensors) (inputs sensors)
    unfolding parse_sensors
    parse_sensors-IsHighest sensors = rw (sensors-inputs sensors none) (highest (inputs sensors))
