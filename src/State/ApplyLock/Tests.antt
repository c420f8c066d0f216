-- ===== src/State/ApplyLock/Tests.antt =====
-- Two processes at one lock file.
use dasik.Base.{true, ◌≡◌, refl, none, some, [], ◌∷◌, concat, is_space, mem_number}
use dasik.Commands.{strip, strip_left, strip_right}
use dasik.Effects.{ok, raise, exception}
use package.dasik.State.ApplyLock.{
  LockFile, who, busy, flock, enter, system, enters, Reachable, idle, next,
}
use package.dasik.State.ApplyLock.Laws.{IsExclusive, exclusive, usable}

abbrev free : LockFile
free = record { holder = none; content = "" }

abbrev held : LockFile
held = record { holder = some "41"; content = "41\n" }

first_enters : enter (usable true) "41" free ≡ (ok true, held)
unfolding enter flock concat
first_enters = refl

second_refused :
    enter (usable true) "42" held
    ≡ (raise (exception "another dasik is already applying to this target (pid 41)"), held)
unfolding enter flock busy who concat strip strip_left strip_right is_space mem_number
second_refused = refl

one_inside : Reachable (system held ("41" ∷ []))
one_inside = next (idle "") (enters (usable true) "41" first_enters)

exclusive_example : IsExclusive (system held ("41" ∷ []))
exclusive_example = exclusive one_inside
