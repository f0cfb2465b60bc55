-- ===== src/Orchestrator/Session/Tests.antt =====
-- A Run of a session whose mailbox holds a close.
use tacklr.Base.{Bool, true, false, none, some, List, [], ◌∷◌, ◌++◌, Bytes, codes}
use tacklr.Failure.{ok}
use tacklr.Orchestrator.State.{State, Job, close}
use tacklr.Orchestrator.Runtime.{Runtime, Sys}
use tacklr.Orchestrator.Samples.{an_answer, fresh}

-- A runtime whose world is the list of the jobs that it was asked to cancel.
abbrev logging : Runtime (List Bytes)
logging = record {
  begin = λ ts w. ([], w);
  end_turn = λ w. w;
  commit = λ rev c w. (ok [], w);
  infer = λ w. (ok an_answer, w);
  tools = λ cs w. (cs, w);
  emit = λ e w. w;
  run_job = λ worker task w. (ok [], w);
  next = λ block w. (some close, w);
  start_job = λ j w. (none, w);
  cancel_job = λ id w. w ++ id ∷ [];
}

abbrev a_job : Bytes → Bool → Job
a_job id ended = record {
  id = id;
  name = codes "index";
  call = [];
  ended = ended;
  result = record { output = []; failed = false };
}

abbrev old_turn : State
old_turn = record fresh {
  result = codes "old";
  jobs = a_job (codes "j1") false ∷ a_job (codes "j2") true ∷ a_job (codes "j3") false ∷ [];
}

abbrev start : Sys (List Bytes)
start = record { turn = old_turn; world = [] }

abbrev closed_session : Sys (List Bytes)
closed_session = record {
  turn = record old_turn { closed = true };
  world = codes "j1" ∷ codes "j3" ∷ [];
}
