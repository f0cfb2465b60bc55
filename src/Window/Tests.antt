-- ===== src/Window/Tests.antt =====
-- A small window, over a host that counts fewer tokens at each count.
use tacklr.Base.{ℕ, ◌≡◌, ◌-◌, true, false, some, List, [], ◌∷◌, codes}
use tacklr.Failure.{Result, ok}
use tacklr.Message.{Message, user, tool, text_message}
use tacklr.Window.{no_count, Host, Window, plan_document, trim}
use tacklr.Window.Trims.{Trimmed, trim-fits}
use tacklr.Window.Fit.{fit}
use tacklr.Window.Fit.Keeps.{FitKeeps, fit-keeps_prefix}

abbrev counting : Host ℕ
counting = record {
  request_size = λ msgs. 0;
  encoded = λ m. 0;
  count_tokens = λ msgs w. (ok w, w - 10);
  summarize = λ msgs w. (ok (codes "summary"), w);
  archive = λ msgs w. (ok true, w);
  keep_result = λ id full w. (ok (codes "/results/1"), w);
}

abbrev a_result : Message
a_result = record (text_message tool (codes "a long result")) { tool_call_id = codes "w1" }

abbrev small : Window ℕ
small = record {
  size = 8;
  threshold = 0;
  msgs =
      text_message user (codes "hi")
      ∷ (plan_document (codes "p") ∷ (text_message user (codes "more") ∷ []));
  count = no_count;
  cannot_count = false;
  world = 15;
}

trim-fits_example :
    (r : Result (List Message) × Window ℕ) × (trim counting no_count small.msgs
        (a_result ∷ [])
        15
        small
      ≡ some r)
    × Trimmed counting no_count small.msgs (a_result ∷ []) 15 small r
trim-fits_example = trim-fits counting no_count small.msgs (a_result ∷ []) 15 small

fit-keeps_prefix_example :
    (r : Result (Unit {0}) × Window ℕ) × (fit counting (a_result ∷ []) 0 small ≡ some r)
    × FitKeeps counting small.msgs r
fit-keeps_prefix_example = fit-keeps_prefix counting (a_result ∷ []) 0 small
