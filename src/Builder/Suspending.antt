-- ===== src/Builder/Suspending.antt =====
-- `Suspend` and `stopBuild` (internal/builder/builder.go) part by part, since the mutex of the builder is not
-- held between them: other calls and the ends of runs come in between.
pub mod Idle
use comin.Base.{ℕ, Bool, true, false, Option, none, some, List, [], ◌∷◌, String, if◌then◌else◌}
use comin.Builder.{Builder, Happening, step}

-- Where the call of `Suspend` is: there is none; it has canceled the build and waits for its end; it has
-- waited; it has reset `isBuilding`.
pub data Phase : Type 0 where
  apart stopping waited cleared : Phase

-- One call at a time.
pub record Suspending : Type 0 where
  pub builder : Builder
  pub phase : Phase

pub data Move : Type 0 where
  happens : Happening → Move
  begins waits clears ends : Move

abbrev pub alone : Builder → Suspending
alone b = record { builder = b; phase = apart }

-- The guard, and the cancel of the build, whose error comes with its end.
abbrev pub begin_suspend : Phase → Builder → Suspending
begin_suspend apart b =
    if b.is_suspended
    then record { builder = b; phase = apart }
    else record { builder = b; phase = stopping }
begin_suspend stopping b = record { builder = b; phase = stopping }
begin_suspend waited b = record { builder = b; phase = waited }
begin_suspend cleared b = record { builder = b; phase = cleared }

-- The wait for the end of the build, which returns when none runs.
abbrev pub end_wait : Option String → Phase
end_wait none = waited
end_wait (some uuid) = stopping

abbrev pub wait_for_build : Phase → Builder → Suspending
wait_for_build stopping b = record { builder = b; phase = end_wait b.buildator }
wait_for_build apart b = record { builder = b; phase = apart }
wait_for_build waited b = record { builder = b; phase = waited }
wait_for_build cleared b = record { builder = b; phase = cleared }

-- The end of `stopBuild`.
abbrev pub clear_building : Phase → Builder → Suspending
clear_building waited b = record { builder = record b { is_building = false }; phase = cleared }
clear_building apart b = record { builder = b; phase = apart }
clear_building stopping b = record { builder = b; phase = stopping }
clear_building cleared b = record { builder = b; phase = cleared }

-- The end of `Suspend`.
abbrev pub end_suspend : Phase → Builder → Suspending
end_suspend cleared b = record { builder = record b { is_suspended = true }; phase = apart }
end_suspend apart b = record { builder = b; phase = apart }
end_suspend stopping b = record { builder = b; phase = stopping }
end_suspend waited b = record { builder = b; phase = waited }

unfoldable pub move : Suspending → Move × ℕ → Suspending
unfolding step
move s (happens h, now) = record s { builder = step s.builder (h, now) }
move s (begins, now) = begin_suspend s.phase s.builder
move s (waits, now) = wait_for_build s.phase s.builder
move s (clears, now) = clear_building s.phase s.builder
move s (ends, now) = end_suspend s.phase s.builder

unfoldable pub run : Suspending → List (Move × ℕ) → Suspending
unfolding move
run s [] = s
run s (m ∷ ms) = run (move s m) ms
