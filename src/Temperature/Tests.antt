-- ===== src/Temperature/Tests.antt =====
-- The output of a host with a CPU sensor and a disk.
use glint.Common.{ℕ, ◌≡◌, refl, some, none, [], ◌∷◌, arith}
use glint.Common.Int.{ℤ, pos}
use glint.Common.Text.{Str, str}
use glint.Common.Whole.{whole}
use glint.Temperature.{Sensors, parse_sensors}
use glint.Temperature.Highest.{IsHighest, inputs, parse_sensors-IsHighest}

abbrev host : Sensors ℤ
host =
    (
      str "coretemp-isa-0000",
      some (
          (str "Adapter", none)
          ∷ (
            str "Package id 0",
            some ((str "temp1_input", some (pos 45)) ∷ (str "temp1_max", some (pos 80)) ∷ []),
          )
          ∷ (str "Core 0", some ((str "temp2_input", some (pos 47)) ∷ []))
          ∷ []),
    )
    ∷ (
      str "nvme-pci-0100",
      some ((str "Composite", some ((str "temp1_input", some (pos 60)) ∷ [])) ∷ []),
    )
    ∷ []

hottest : parse_sensors whole host ≡ some (pos 47)
unfolding parse_sensors str glint.Common.fold glint.Common.Text.has_prefix
    glint.Common.Text.has_suffix
hottest = refl

parse_sensors-IsHighest_example : IsHighest whole (parse_sensors whole host) (inputs host)
parse_sensors-IsHighest_example =
    parse_sensors-IsHighest whole (λ a b c h k. ground arith) (λ a b h. ground arith)
      (λ a b c h k. ground arith) host
