-- ===== src/Jobs/Tests.antt =====
-- Research jobs, and the theorems about them.
use suiban.Prelude.{◌≡◌, refl, some, List, [], ◌∷◌}
use suiban.Jobs.Store.{running, cancelled, Job, get, add, update, active_count, fail_orphans}
use suiban.Jobs.Manager.{
  Manager, startup, new_job, submit, admit, start, cancel, cancel_found, set_terminal, set_found,
  terminate, with_terminal, already_active,
}
use suiban.Jobs.Steps.{Reach, here, next, submits, starts, cancels}
use suiban.Jobs.Admission.{IsSingle}
use suiban.Jobs.Single.{Reach-IsSingle}
use suiban.Jobs.Final.{Ended, Reach-final}

-- The program was stopped in the middle of a job.
abbrev rows : List Job
rows = record (new_job "job_0" "tides" "low" 3) { state = running; started_at = some 4 } ∷ []

abbrev submitted : Manager
submitted = (submit (startup rows 10) "job_1" "eclipses" "high" 20).0

abbrev begun : Manager
begun = start submitted "job_1" 21

abbrev stopped : Manager
stopped = (cancel begun "job_1" 30).0

abbrev ended : Job
ended = record (new_job "job_1" "eclipses" "high" 20) {
  state = cancelled;
  started_at = some 21;
  finished_at = some 30;
}

begun_reached : Reach (startup rows 10) begun
unfolding startup submit admit add active_count fail_orphans
begun_reached = next (next here (submits "job_1" "eclipses" "high" 20)) (starts "job_1" 21 refl)

stopped_reached : Reach (startup rows 10) stopped
stopped_reached = next begun_reached (cancels "job_1" 30)

-- The orphan has failed, the new job is the one that runs, and a third is refused.
one_runs :
    (active_count begun.jobs ≡ 1) × ((submit begun "job_2" "comets" "low" 22).1 ≡ already_active)
unfolding startup submit admit add active_count fail_orphans start update
one_runs = (refl, refl)

ended_found : get stopped.jobs "job_1" ≡ some ended
unfolding startup submit admit add active_count fail_orphans start cancel cancel_found set_terminal
    set_found terminate with_terminal get update
ended_found = refl

Reach-IsSingle_example : IsSingle begun
Reach-IsSingle_example = Reach-IsSingle rows 10 begun begun_reached

-- A second cancellation leaves the job as it is.
Reach-final_example : Ended "job_1" ended (cancel stopped "job_1" 31).0.jobs
Reach-final_example =
    Reach-final rows 10 stopped (cancel stopped "job_1" 31).0 "job_1" ended stopped_reached
      ended_found refl (next here (cancels "job_1" 31))
