-- ===== src/Assignment/CrashExamples.antt =====
-- Processes of main_assignment.py that start from a file, at concrete data: one left by a crash inside
-- the callback of a rollback, and one of an older version.
use aimili_gateway.Prelude.{Text, codes, true, false, ◌≡◌, refl, none, some, [], ◌∷◌}
use aimili_gateway.Prelude.Strings.{text_eq, is_empty, strip}
use aimili_gateway.Prelude.Dicts.{lookup, IsDict}
use aimili_gateway.Assignment.Types.{
  absent, Document, Operation, assignment_expired, is_blocking, rolling_back, running,
}
use aimili_gateway.Assignment.Stage.{new_operation}
use aimili_gateway.Assignment.Validate.{
  count_blocking, valid_history, valid_hash, valid_operation, valid_active, valid_document, start,
}
use aimili_gateway.Assignment.Sound.{IsFile}
use aimili_gateway.Assignment.Consistency.{IsConsistent}
use aimili_gateway.Assignment.Finish.{recover_begin}
use aimili_gateway.Assignment.World.{recovers, World, land, to_restore, next, Lives, started}
use aimili_gateway.Assignment.Deadlock.{some-IsFile, rolling_back_stuck}
use aimili_gateway.Assignment.ValidateSound.{is_stored_refl, start-IsConsistent}
use aimili_gateway.Assignment.Examples.{plain, settings, begun}
use aimili_gateway.Assignment.Legacy.{resolved, File, leaseless, open_file}
use aimili_gateway.Assignment.LegacySound.{Starts, open_file-Starts}
use aimili_gateway.Assignment.Types.{committed}

abbrev hash_a : Text
hash_a = codes "aaaaaaaaaaaaaaaaaaaaaaaaaaaaaaaaaaaaaaaaaaaaaaaaaaaaaaaaaaaaaaaa"

-- What is on disk when the process dies inside the callback of a rollback.
abbrev interrupted : Operation
interrupted = record begun {
  state = rolling_back;
  country = codes "US";
  idempotency_hash = hash_a;
  request_hash = hash_a;
}

abbrev crashed : Document
crashed = record {
  active = running interrupted;
  operations = (hash_a, interrupted) ∷ [];
  mutation_lease = none;
}

crashed-IsDict : IsDict crashed.operations
unfolding lookup
crashed-IsDict = (refl, tt)

crashed_valid : valid_document crashed ≡ true
unfolding valid_document valid_history valid_hash valid_operation new_operation strip text_eq
    is_empty valid_active is_blocking lookup count_blocking
crashed_valid = rw (is_stored_refl interrupted) refl

-- The new process calls `recover`.
abbrev recovering : World
recovering =
    land [] (λ p. to_restore p (some assignment_expired) false)
      ((started (some crashed)).coord, recover_begin 1000 (started (some crashed)).coord)

crashed_life : Lives plain settings (started (some crashed)) recovering
crashed_life = next Lives.here (recovers 1000 refl)

rolling_back_stuck_example : recovering.coord.active ≡ running interrupted
rolling_back_stuck_example =
    rolling_back_stuck crashed interrupted crashed-IsDict crashed_valid refl refl crashed_life

crashed-IsFile : IsFile (some crashed)
crashed-IsFile = some-IsFile crashed crashed-IsDict

start-IsConsistent_example : IsConsistent (start (some crashed))
start-IsConsistent_example = start-IsConsistent (some crashed) crashed-IsFile

-- A history that an earlier version wrote after a repair.
abbrev legacy : File
legacy = leaseless absent (
    (
      hash_a,
      resolved (record begun {
        state = committed;
        country = codes "US";
        idempotency_hash = hash_a;
        request_hash = hash_a;
      }),
    )
    ∷ [])

open_file-Starts_example : Starts (open_file legacy)
unfolding lookup
open_file-Starts_example = open_file-Starts legacy (refl, tt)
