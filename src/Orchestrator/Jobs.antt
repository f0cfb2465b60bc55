-- ===== src/Orchestrator/Jobs.antt =====
-- The jobs of a session (turn.go): how each starts, ends, and reaches the call that waits on it.
pub mod Ends
pub mod Starts
use tacklr.Base.{
  ◌≡◌, refl, Bool, true, false, not, ◌&&◌, Option, none, some, List, [], ◌∷◌, ◌++◌, map, Bytes,
  codes, is_empty, text_eq, find_index?, remove_at, get_elem?, set, if◌then◌else◌,
}
use tacklr.Failure.{Failure}
use tacklr.Message.{Message, user, text_message}
use tacklr.Call.{Call, JobStart, JobResult, call_key}
use tacklr.Orchestrator.State.{State, Job, JobEnd}
use tacklr.Orchestrator.Runtime.{Runtime, Sys}

-- `jobMessage`
unfoldable pub job_message : Job → JobResult → Message
job_message j res = text_message user (
    codes "Job "
    ++ (j.id
        ++ (codes " ("
            ++ (j.name
                ++ (codes ") "
                    ++ ((if res.failed then codes "failed" else codes "completed")
                        ++ (codes ":\n" ++ res.output)))))))

-- What a job's end makes of the jobs: the job with its result when a call waits on it, else a
-- message.
end_job : JobEnd → List Job → List Job × List Message
end_job end [] = ([], [])
end_job end (j ∷ js) =
    let (rest, messages) = end_job end js in
    if text_eq j.id end.id
    then if is_empty j.call
      then (js, job_message j end.result ∷ [])
      else (record j { ended = true; result = end.result } ∷ js, [])
    else (j ∷ rest, messages)

-- `State.jobEnded`
unfoldable pub job_ended : JobEnd → State → State
unfolding end_job
job_ended end t =
    let (jobs, messages) = end_job end t.jobs in
    record t { jobs = jobs; inbox = t.inbox ++ messages }

-- `State.jobIDs`
abbrev pub job_ids : List Job → List Bytes
job_ids jobs = map (λ j. j.id) jobs

-- The job that `jobRuns` gives to a call: the first that ended with the call's key. It is taken
-- from the jobs.
unfoldable pub take_ended : Bytes → List Job → Option (JobResult × List Job)
take_ended key [] = none
take_ended key (j ∷ js) =
    if j.ended && text_eq j.call key
    then some (j.result, js)
    else (elim (take_ended key js) [ none ↦ none | some (res, rest) ↦ some (res, j ∷ rest) ])

-- `State.jobRuns`
unfoldable pub job_runs : List Call → List Job → List Call × List Job
unfolding take_ended
job_runs [] jobs = ([], jobs)
job_runs (c ∷ cs) jobs = elim (take_ended (call_key c) jobs) [
  | none ↦ job_runs cs jobs
  | some (res, rest) ↦
      let (runs, left) = job_runs cs rest in (record c { job_end = some res } ∷ runs, left)
]

-- The job of a start; the job that the call waits on has the call's key.
unfoldable pub started_job : Call → JobStart → Job
started_job c s = record {
  id = s.id;
  name = s.name;
  call = if text_eq s.id c.await then call_key c else [];
  ended = false;
  result = record { output = []; failed = false };
}

module _ {W : Type 0} (rt : Runtime W) where
  -- `State.cancelJobs`: the loop over the jobs.
  unfoldable pub cancel_each : List Job → W → W
  cancel_each [] w = w
  cancel_each (j ∷ js) w = cancel_each js (if j.ended then w else rt.cancel_job j.id w)

  -- `State.cancelJobs`
  unfoldable pub cancel_jobs : Sys W → Sys W
  unfolding cancel_each
  cancel_jobs s = record {
    turn = record s.turn { jobs = [] };
    world = cancel_each s.turn.jobs s.world;
  }

  -- The first loop of `startJobs`: a cancel of a job that the session does not run is nothing.
  unfoldable pub cancel_asked : List Bytes → List Job → W → List Job × W
  cancel_asked [] jobs w = (jobs, w)
  cancel_asked (id ∷ ids) jobs w = elim (find_index? (λ j. text_eq j.id id) jobs) [
    | none ↦ cancel_asked ids jobs w
    | some i ↦ cancel_asked ids (remove_at i jobs) (rt.cancel_job id w)
  ]

  -- The second loop of `startJobs`: a start that fails leaves the jobs before it, and stops.
  unfoldable pub start_each : Call → List JobStart → List Job → W → Option Failure × List Job × W
  unfolding started_job
  start_each c [] jobs w = (none, jobs, w)
  start_each c (s ∷ ss) jobs w =
      let (failed, w') = rt.start_job s w in
      elim failed [
        | none ↦ start_each c ss (jobs ++ started_job c s ∷ []) w'
        | some e ↦ (some e, jobs, w')
      ]

  -- `State.startJobs`
  unfoldable pub start_jobs : Call → List Job → W → Option Failure × List Job × W
  unfolding cancel_asked start_each
  start_jobs c jobs w =
      let (jobs', w') = cancel_asked c.cancels jobs w in start_each c c.starts jobs' w'
