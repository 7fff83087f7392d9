-- ===== src/Tests/Signal.antt =====
-- The theorem on installations, applied to two of them.
use endurox_java.Base.{◌+◌, ◌≡◌, refl, true, false, none, some, List, [], ◌∷◌}
use endurox_java.Signal.{Signals, Install, installs}
use endurox_java.Signal.Installs.{installs_lem}

abbrev quiet : Signals
quiet = record { is_set = false; locked = false; threads = 0; runner_refs = 0; runner = none }

abbrev twice : List Install
twice =
    record { ctx_found = true; vm_found = true; runner = some 1 }
    ∷ record { ctx_found = true; vm_found = true; runner = some 2 }
    ∷ []

installs_lem_example :
    (s : Signals) × (installs twice quiet ≡ some s)
    × (s.locked ≡ false)
    × (s.threads ≡ 0 + 2)
    × (s.runner ≡ some 2)
    × (s.runner_refs ≡ 1)
installs_lem_example = installs_lem twice quiet refl refl refl
