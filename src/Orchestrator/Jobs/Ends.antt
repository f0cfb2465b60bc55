-- ===== src/Orchestrator/Jobs/Ends.antt =====
-- How a job's end reaches the call that waits on it, or the inbox.
use tacklr.Base.{
  ◌+◌, ◌≡◌, refl, Bool, true, false, not, ◌&&◌, Option, none, some, List, [], ◌∷◌, ◌++◌, append-nil,
  Bytes, is_empty, is_some, text_eq, text_eq_refl, arith, length, count, keep, All, if◌then◌else◌,
  Option-cases, inl, inr, ◌∙◌,
}
use tacklr.Call.{Call, JobResult, call_key}
use tacklr.Orchestrator.State.{State, Job, JobEnd}
use tacklr.Orchestrator.Jobs.{job_message, end_job, job_ended, take_ended, job_runs}

abbrev pub is_ended : Job → Bool
is_ended j = j.ended

abbrev pub runs_on : Job → Bool
runs_on j = not j.ended

-- The job with its end, as the session keeps it for the call that waits on it.
abbrev pub finished_job : Job → JobResult → Job
finished_job j res = record j { ended = true; result = res }

abbrev pub NotNamed : Bytes → List Job → Type 0
NotNamed id = All (λ j. text_eq j.id id ≡ false)

end_job_unknown :
    (end : JobEnd) (jobs : List Job) → NotNamed end.id jobs → end_job end jobs ≡ (jobs, [])
unfolding end_job
end_job_unknown end [] h = refl
end_job_unknown end (j ∷ js) h = ground (arith, end_job_unknown end js h.1)

end_job_known :
    (res : JobResult) (pre post : List Job) (j : Job)
    → NotNamed j.id pre
    → end_job (record { id = j.id; result = res }) (pre ++ j ∷ post) ≡ (
        if is_empty j.call
        then (pre ++ post, job_message j res ∷ [])
        else (pre ++ finished_job j res ∷ post, []))
unfolding end_job
end_job_known res [] post j h = rw (text_eq_refl j.id)
end_job_known res (x ∷ pre) post j h = rw h.0 (ground (arith, end_job_known res pre post j h.1))

-- A job's end, in every case: an end of a job that the session does not run is nothing. The end
-- of a background job becomes one inbox message, and the job is forgotten. A job that a call waits
-- on stays, with its result. No other job, and nothing else of the state, changes.
pub job_ended_lem :
    (t : State) (res : JobResult)
    → ((id : Bytes) → NotNamed id t.jobs → job_ended (record { id = id; result = res }) t ≡ t)
      × ((pre post : List Job) (j : Job)
          → t.jobs ≡ pre ++ j ∷ post
          → NotNamed j.id pre
          → job_ended (record { id = j.id; result = res }) t ≡ (
              if is_empty j.call
              then record t { jobs = pre ++ post; inbox = t.inbox ++ job_message j res ∷ [] }
              else record t { jobs = pre ++ finished_job j res ∷ post }))
unfolding job_ended
job_ended_lem t res = (
  λ id unknown. rw (end_job_unknown (record { id = id; result = res }) t.jobs unknown, append-nil),
  λ pre post j jobs first. ground (arith, end_job_known res pre post j first, append-nil t.inbox),
)

-- What taking ended jobs leaves: the same running jobs, and one ended job fewer for each run.
pub record Taken (jobs : List Job) (runs : List Call) (left : List Job) : Type 0 where
  pub running : keep runs_on left ≡ keep runs_on jobs
  pub fewer : count is_ended left + length runs ≡ count is_ended jobs
  pub given : All (λ c. is_some c.job_end ≡ true) runs

abbrev TakesOne : List Job → Option (JobResult × List Job) → Type 0
TakesOne jobs none = Unit
TakesOne jobs (some (res, left)) =
    (keep runs_on left ≡ keep runs_on jobs) × (count is_ended left + 1 ≡ count is_ended jobs)

take_ended-TakesOne : (key : Bytes) (jobs : List Job) → TakesOne jobs (take_ended key jobs)
unfolding take_ended
take_ended-TakesOne key [] = tt
take_ended-TakesOne key (j ∷ js) = ground (arith, take_ended-TakesOne key js)

-- Giving the round's calls their jobs' results loses no running job: those stay, in order. Each
-- ended job that is taken becomes one run, which carries its result.
pub job_runs-Taken :
    (calls : List Call) (jobs : List Job)
    → Taken jobs (job_runs calls jobs).0 (job_runs calls jobs).1
unfolding job_runs
job_runs-Taken [] jobs = record { running = refl; fewer = omega arith; given = tt }
job_runs-Taken (c ∷ cs) jobs = elim (Option-cases (take_ended (call_key c) jobs)) [
  | inl absent ↦ rw (absent, job_runs) (job_runs-Taken cs jobs)
  | inr (taken, found) ↦
      let one : TakesOne jobs (some taken) = rw found at (take_ended-TakesOne (call_key c) jobs) in
      let rest = job_runs-Taken cs taken.1 in
      rw (found, job_runs)
        (record {
          running = rest.running ∙ one.0;
          fewer = omega (arith, one.1, rest.fewer);
          given = (refl, rest.given);
        })
]

-- No ended job of the call stands before.
abbrev pub NotDue : Bytes → List Job → Type 0
NotDue key = All (λ j. (j.ended && text_eq j.call key) ≡ false)

take_ended-append :
    (res : JobResult) (pre post : List Job) (j : Job)
    → NotDue j.call pre
    → take_ended j.call (pre ++ finished_job j res ∷ post) ≡ some (res, pre ++ post)
unfolding take_ended
take_ended-append res [] post j h = rw (text_eq_refl j.call)
take_ended-append res (x ∷ pre) post j h =
    rw h.0 (ground (arith, take_ended-append res pre post j h.1))

job_runs_one :
    (c : Call) (jobs : List Job) (res : JobResult) (left : List Job)
    → take_ended (call_key c) jobs ≡ some (res, left)
    → job_runs (c ∷ []) jobs ≡ (record c { job_end = some res } ∷ [], left)
unfolding job_runs
job_runs_one c jobs res left h = rw (h, job_runs)

end_job_waited :
    (jobs : List Job) (res : JobResult) (pre post : List Job) (j : Job)
    → jobs ≡ pre ++ j ∷ post
    → NotNamed j.id pre
    → is_empty j.call ≡ false
    → (end_job (record { id = j.id; result = res }) jobs).0 ≡ pre ++ finished_job j res ∷ post
end_job_waited jobs res pre post j same first waited =
    ground (arith, end_job_known res pre post j first)

-- The end of a job that a call waits on runs that call with the job's result, and the job is gone.
pub end-reaches_call :
    (t : State) (res : JobResult) (pre post : List Job) (j : Job) (c : Call)
    → t.jobs ≡ pre ++ j ∷ post
    → NotNamed j.id pre
    → is_empty j.call ≡ false
    → call_key c ≡ j.call
    → NotDue j.call pre
    → job_runs (c ∷ []) (job_ended (record { id = j.id; result = res }) t).jobs
      ≡ (record c { job_end = some res } ∷ [], pre ++ post)
unfolding job_ended
end-reaches_call t res pre post j c jobs first waited key due =
    rw (end_job_waited t.jobs res pre post j jobs first waited)
      (job_runs_one c _ res (pre ++ post) (rw key (take_ended-append res pre post j due)))
