-- ===== src/Steps/Tests.antt =====
-- Runs of a call with a small harness: one tool answers, one asks for permission, one waits on a job.
use tacklr.Base.{
  ℕ, none, ◌≡◌, refl, true, false, Option, some, List, [], ◌∷◌, map, Bytes, codes, text_eq,
}
use tacklr.Failure.{Result, ok}
use tacklr.Message.{Message, ToolCall}
use tacklr.Plan.{Todo, Effect, no_effect, Output, text}
use tacklr.Call.{
  Call, CallBody, Round, new_call, empty_body, Interrupt, tool_permission, is_pending,
}
use tacklr.SessionManager.{SessionManager, new_session_manager}
use tacklr.CallContext.{CallContext, new_call_context, take_answer, user_values, remember_answer}
use tacklr.Steps.{
  outcome, Tool, Harness, tool_result_message, or_auth_expired, settle_run, execute_tool_call,
  run_call,
}
use tacklr.Steps.Runs.{RunEnd, run_call-RunEnd}
use tacklr.Steps.Commits.{not_done, has_result, commit_reply_round-answers_each}
use tacklr.Steps.Rounds.{commit_round, commit_reply_round}
use tacklr.Window.{Host, Window, no_count}
use tacklr.Steps.OnCall.{
  LayerEnd, passes, apply_on_call_layer, finish_on_call_layer, layer-passes_again,
}

abbrev grep_call : ToolCall
grep_call = record {
  id = codes "c1";
  type = [];
  call_id = codes "w1";
  name = codes "grep";
  title = [];
  category = [];
  namespace = [];
  arguments = [];
  status = [];
}

abbrev grep : Tool
grep = record {
  name = codes "grep";
  namespace = [];
  run = λ ctx. (outcome (record { output = text (codes "found"); effect = no_effect }), ctx);
}

abbrev shown_text : Output → Bytes
shown_text (text t) = t
shown_text (Output.starting title d) = title

abbrev a_harness : Harness
a_harness = record {
  session_id = codes "s";
  specialists = [];
  jobs = [];
  session = new_session_manager;
  tools = grep ∷ [];
  return_ = λ i payload. ok i;
  shown = shown_text;
  park_data = λ key i. key;
}

-- The call with its result.
abbrev grepped : Call
grepped = record (new_call grep_call 0) {
  done = true;
  body = some (record empty_body { result = some (tool_result_message grep_call (codes "found")) });
}

run_call-RunEnd_example : (grepped.tool ≡ grep_call) × RunEnd grepped × (is_pending grepped ≡ false)
unfolding run_call execute_tool_call or_auth_expired settle_run new_call_context user_values text_eq
run_call-RunEnd_example =
    run_call-RunEnd a_harness (new_call grep_call 0) grepped
      (record { same_tool = λ ctx. refl; same_done = λ ctx. refl }, tt) refl refl

-- The second call of the round has not run: the commit cancels it.
abbrev a_round : List Call
a_round = grepped ∷ (new_call (record grep_call { id = codes "c2"; call_id = codes "w2" }) 0 ∷ [])

abbrev a_reply : Round
a_reply = record {
  reply = record { messages = []; calls = []; result = []; timeouts = []; input_tokens = 0 };
  calls = a_round;
}

abbrev plain_host : Host ℕ
plain_host = record {
  request_size = λ msgs. 0;
  encoded = λ m. 0;
  count_tokens = λ msgs w. (ok w, w);
  summarize = λ msgs w. (ok (codes "summary"), w);
  archive = λ msgs w. (ok true, w);
  keep_result = λ id full w. (ok (codes "/results/1"), w);
}

abbrev empty_window : Window ℕ
empty_window = record {
  size = 9;
  threshold = 8;
  msgs = [];
  count = no_count;
  cannot_count = false;
  world = 0;
}

abbrev write_nothing : Option (List Todo) → List Message → ℕ → Result Bytes × ℕ
write_nothing todos msgs w = (ok [], w)

commit_reply_round-answers_each_example :
    (s' : SessionManager) × (results : List Message) × (e' : Effect) × (commit_reply_round
        plain_host write_nothing none a_reply new_session_manager empty_window
      ≡ ok (s', commit_round plain_host write_nothing none s' results e' 0 empty_window))
    × (map (λ (m : Message). m.tool_call_id) results ≡ codes "w1" ∷ (codes "w2" ∷ []))
commit_reply_round-answers_each_example =
    commit_reply_round-answers_each plain_host write_nothing none a_reply new_session_manager
      empty_window (has_result _ _ refl refl refl, (not_done refl, tt))

abbrev asks_user : Interrupt
asks_user = tool_permission (codes "grep") [] [] [] [] false

-- The user allowed the call always.
abbrev allowed : CallContext
allowed = record {
  session_id = [];
  specialists = [];
  jobs = [];
  session = new_session_manager;
  running = [];
  max_children = 0;
  call = new_call grep_call 0;
  body = record empty_body {
    park = some (record {
      interrupt =
          tool_permission (codes "grep") [] [] (codes "allow-always") (codes "allow_always") true;
      answered = true;
    });
  };
  user = [];
}

abbrev passed : LayerEnd × CallContext
passed = apply_on_call_layer (codes "grep") (codes "{}") (some asks_user) allowed

-- The call's body after the pass, parked again.
abbrev parked_again : CallBody
parked_again = record passed.1.body {
  park = some (record { interrupt = asks_user; answered = false });
}

abbrev second_run : CallContext
second_run = new_call_context [] [] [] new_session_manager (new_call grep_call 0) parked_again [] 0

layer-passes_again_example :
    apply_on_call_layer (codes "grep") (codes "{1}") (some asks_user) second_run
    ≡ (passes (codes "{}"), second_run)
unfolding apply_on_call_layer take_answer finish_on_call_layer remember_answer text_eq
layer-passes_again_example =
    layer-passes_again (codes "grep") (codes "{}") (codes "{}") (codes "{1}") asks_user asks_user
      allowed passed.1 [] [] [] new_session_manager (new_call grep_call 0) parked_again [] 0 [] refl
      refl refl
