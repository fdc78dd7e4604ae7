-- ===== src/Examples/Thermal/Zones.antt =====
-- Where the temperature of the processor comes from (examples/tool_call_demo/ea_tool_thermal.cpp).
use embed_agent.Base.{
  ◌≡◌, refl, true, false, List, [], ◌∷◌, ◌++◌, Option, none, some, Text, codes, Bool-cases,
  Option-cases, inl, inr, ℤ, pos, ◌⊎◌, sym, ap,
}
use embed_agent.Files.{FileSystem}
use embed_agent.Cppev.{Json}
use embed_agent.Doubles.{Doubles}
use embed_agent.Tool.Args.{ToolArgs}
use embed_agent.Examples.Thermal.{
  ThermalZone, is_cpu_type, thermal_path, read_thermal_milli_c, scan_thermal_zones, first_cpu_zone,
  cpu_milli_c, or_else, temperature_result, handle_read_cpu_temperature,
}

module _ (F : FileSystem) (J : Json) (D : Doubles) (entries : F.State → Option (List Text)) where
  open D use {Double, of_int, to_int, mul, div, literal}

  -- The zones of a list have types that are not those of a processor.
  abbrev NoneCpu : List (ThermalZone F J D entries) → Type 0
  NoneCpu [] = Unit
  NoneCpu (z ∷ zs) = (is_cpu_type z.type ≡ false) × NoneCpu zs

  -- The first zone of a processor, if there is one.
  abbrev IsFirstCpu : List (ThermalZone F J D entries) → Option ℤ → Type 0
  IsFirstCpu zs none = NoneCpu zs
  IsFirstCpu zs (some n) =
      (before : List (ThermalZone F J D entries)) × (z : ThermalZone F J D entries) × (after : List
        (ThermalZone F J D entries))
      × (zs ≡ before ++ z ∷ after)
      × NoneCpu before
      × (is_cpu_type z.type ≡ true)
      × (n ≡ to_int (mul z.temp_c (of_int (pos 1000))))

  IsFirstCpu-cons :
      (z : ThermalZone F J D entries) (zs : List (ThermalZone F J D entries)) (r : Option ℤ)
      → is_cpu_type z.type ≡ false
      → IsFirstCpu zs r
      → IsFirstCpu (z ∷ zs) r
  IsFirstCpu-cons z zs none e h = (e, h)
  IsFirstCpu-cons z zs (some n) e (before, y, after, whole, others, cpu, value) =
      (z ∷ before, y, after, ap (◌∷◌ z) whole, (e, others), cpu, value)

  first_cpu_zone-IsFirstCpu :
      (zs : List (ThermalZone F J D entries)) → IsFirstCpu zs (first_cpu_zone F J D entries zs)
  unfolding first_cpu_zone
  first_cpu_zone-IsFirstCpu [] = tt
  first_cpu_zone-IsFirstCpu (z ∷ zs) =
      let rest = first_cpu_zone-IsFirstCpu zs in
      elim (Bool-cases (is_cpu_type z.type)) [
        | inl e ↦ rw e ([], z, zs, refl, tt, e, refl)
        | inr e ↦ rw e (IsFirstCpu-cons z zs (first_cpu_zone F J D entries zs) e rest)
      ]

  -- read_cpu_temperature prints the temperature that thermal_zone0 gives; where it gives none, that
  -- of the first zone of a processor in the directory; and the error where there is no such zone.
  handle_read_cpu_temperature_cases :
      (s : F.State) (args : ToolArgs J)
      → (found : Option ℤ) × (handle_read_cpu_temperature F J D entries s args
          ≡ temperature_result F J D entries found)
        × ((found
                ≡ read_thermal_milli_c F J D entries s
                    (thermal_path (codes "thermal_zone0") (codes "temp"))
              × ((n : ℤ) × (found ≡ some n)))
            ⊎ ((read_thermal_milli_c F J D entries s
                    (thermal_path (codes "thermal_zone0") (codes "temp"))
                  ≡ none)
                × IsFirstCpu (scan_thermal_zones F J D entries s) found))
  unfolding handle_read_cpu_temperature cpu_milli_c
  handle_read_cpu_temperature_cases s args =
      let zone0 =
        read_thermal_milli_c F J D entries s
          (thermal_path (codes "thermal_zone0") (codes "temp")) in
      elim (Option-cases zone0) [
        | inl e ↦ (
          first_cpu_zone F J D entries (scan_thermal_zones F J D entries s),
          ap
              (λ (z : Option ℤ). temperature_result F J D entries (
                or_else F J D entries z
                  (first_cpu_zone F J D entries (scan_thermal_zones F J D entries s))))
              e,
          inr (e, first_cpu_zone-IsFirstCpu (scan_thermal_zones F J D entries s)),
        )
        | inr e ↦ (
          some e.0,
          ap
              (λ (z : Option ℤ). temperature_result F J D entries (
                or_else F J D entries z
                  (first_cpu_zone F J D entries (scan_thermal_zones F J D entries s))))
              e.1,
          inl (sym e.1, (e.0, refl)),
        )
      ]
