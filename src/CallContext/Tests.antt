-- ===== src/CallContext/Tests.antt =====
-- Runs of a call's context on a small session.
use tacklr.Base.{◌≡◌, refl, true, false, List, [], ◌∷◌, Bytes, codes, text_eq, trim_space}
use tacklr.Failure.{Result, ok}
use tacklr.Message.{ToolCall}
use tacklr.Plan.{complete}
use tacklr.Call.{new_call, empty_body}
use tacklr.SessionManager.{Value, decoded, given, new_session_manager, apply}
use tacklr.CallContext.{CallContext, new_call_context}
use tacklr.CallContext.Reads.{
  Write, set_key, delete_key, remember, change_plan_by, write_all, ReadsAs, reads-apply,
}
use tacklr.CallContext.Starts.{
  JobRequest, child_id, start_problem, is_started, InLimit, start_job, start_job-once,
}

abbrev a_tool_call : ToolCall
a_tool_call = record {
  id = codes "c1";
  type = [];
  call_id = [];
  name = codes "grep";
  title = [];
  category = [];
  namespace = [];
  arguments = [];
  status = [];
}

abbrev opened : CallContext
opened = record {
  session_id = codes "s";
  specialists = [];
  jobs = codes "index" ∷ [];
  session = new_session_manager;
  running = [];
  max_children = 1;
  call = new_call a_tool_call 0;
  body = empty_body;
  user = [];
}

-- The host's int 1 decodes to another value, a float.
abbrev marshal : Value → Result Bytes
marshal (decoded raw) = ok raw
marshal (given name) = ok (codes "1")

abbrev some_writes : List Write
some_writes =
    set_key (codes "n") (given (codes "int 1"))
    ∷ set_key (codes "k") (given (codes "int 1"))
    ∷ (delete_key (codes "k")
        ∷ (remember (codes "sh") (codes "allow_always")
            ∷ (change_plan_by (complete (codes "x")) ∷ [])))

reads-apply_example :
    let ctx = write_all marshal some_writes (
      new_call_context
        (codes "s")
        []
        []
        new_session_manager
        (new_call a_tool_call 0)
        empty_body
        []
        0) in
    ReadsAs marshal ctx (apply ctx.body.writes ctx.session)
reads-apply_example =
    reads-apply marshal (codes "s") [] [] new_session_manager (new_call a_tool_call 0) empty_body []
      0 some_writes tt

abbrev index_job : JobRequest
index_job = record { name = codes " index"; task = codes "all"; wait = true }

abbrev index_id : Bytes
index_id = codes "s/j/index/c1"

abbrev index_started : CallContext
index_started = record opened {
  call = record opened.call {
    starts =
        record { id = index_id; name = codes "index"; task = codes "all"; specialist = false } ∷ [];
    await = index_id;
  };
}

start_job-once_example :
    (is_started index_id index_started ≡ true)
    × (InLimit opened → InLimit index_started)
    × (start_job index_job false index_started
        ≡ ok (record { id = index_id; name = codes "index" }, index_started))
unfolding start_job start_problem child_id is_started text_eq trim_space
start_job-once_example =
    start_job-once index_job false opened index_started
      (record { id = index_id; name = codes "index" }) refl
