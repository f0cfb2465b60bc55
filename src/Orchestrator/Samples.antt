-- ===== src/Orchestrator/Samples.antt =====
-- A small session and a runtime for it, for the tests: its world is the number of times that the
-- model still asks for a tool, and the record's revision.
use tacklr.Base.{ℕ, zero, suc, true, false, none, [], ◌∷◌, map, Bytes, codes}
use tacklr.Failure.{Result, ok, err, plain}
use tacklr.Message.{Message, ToolCall, user, text_message}
use tacklr.Call.{Call, Reply}
use tacklr.Orchestrator.State.{State, Identity, new_state}
use tacklr.Orchestrator.Runtime.{Runtime}

pub record World : Type 0 where
  pub asks : ℕ
  pub rev : Bytes

abbrev pub a_call : ToolCall
a_call = record {
  id = codes "c1";
  type = [];
  call_id = [];
  name = codes "grep";
  title = [];
  category = [];
  namespace = [];
  arguments = [];
  status = [];
}

abbrev pub an_answer : Reply
an_answer = record {
  messages = [];
  calls = [];
  result = codes "done";
  timeouts = [];
  input_tokens = 0;
}

abbrev pub a_request : Reply
a_request = record {
  messages = [];
  calls = a_call ∷ [];
  result = [];
  timeouts = [];
  input_tokens = 0;
}

abbrev pub finish : Call → Call
finish c = record c { done = true; failure = none; starts = []; cancels = [] }

abbrev pub infer_from : ℕ → World → Result Reply × World
infer_from zero w = (ok an_answer, w)
infer_from (suc n) w = (ok a_request, record w { asks = n })

abbrev pub a_runtime : Runtime World
a_runtime = record {
  begin = λ ts w. ([], w);
  end_turn = λ w. w;
  commit = λ rev c w. (ok (1 ∷ w.rev), record w { rev = 1 ∷ w.rev });
  infer = λ w. infer_from w.asks w;
  tools = λ cs w. (map finish cs, w);
  emit = λ e w. w;
  run_job = λ worker task w. (ok [], w);
  next = λ block w. (none, w);
  start_job = λ j w. (none, w);
  cancel_job = λ id w. w;
}

-- A runtime whose record refuses each commit.
abbrev pub refusing : Runtime World
refusing = record a_runtime { commit = λ rev c w. (err (plain (codes "stale")), w) }

abbrev pub nobody : Identity
nobody = record { specialist = []; worker = []; parent = []; mounts = []; task = false }

abbrev pub fresh : State
fresh = new_state (codes "s") nobody [] none none

abbrev pub hello : Message
hello = text_message user (codes "hello")
