-- ===== src/Compaction/Runs.antt =====
-- cmd/gang: the commands and hooks that touch a compaction, each under the lock of its agent, in any order.
use gangline.Prelude.{Option, List, [], ◌∷◌}
use gangline.Core.Types.{Agent, Time}
use gangline.Compaction.{Desk, Failing, Queued, Refusals, continue_compaction, observe_compaction}
use gangline.Compaction.Admission.{
  Prompt, Witness, Asking, submit_hook, reconcile_witness, check_deadline, recover_input,
  request_compaction,
}
use gangline.Compaction.Terminal.{Terminal}
use gangline.Compaction.Start.{start_compaction}

pub data Operation : Type 0 where
  requests : Asking → Operation
  starts : Terminal → Operation
  prompts : Failing → Prompt → Operation
  witnesses : Failing → Queued → Agent → Agent → Witness → Operation
  observes : Failing → Queued → Option Refusals → Operation
  continues : Failing → Queued → Operation
  checks recovers : Time → Operation

-- acquire: the state is read again under the lock
abbrev pub acquire : Desk → Desk
acquire d = record d { held = d.disk }

abbrev pub operate : Operation → Desk → Desk
operate (requests q) d = (request_compaction q d).1
operate (starts t) d = (start_compaction t d).1
operate (prompts f p) d = (submit_hook f p d).1
operate (witnesses f q read told w) d = (reconcile_witness f q read told w d).1
operate (observes f q refusals) d = (observe_compaction f q refusals d).1
operate (continues f q) d = (continue_compaction f q d).1
operate (checks now) d = (check_deadline now d).1
operate (recovers now) d = (recover_input now d).1

unfoldable pub operate_all : List Operation → Desk → Desk
operate_all [] d = d
operate_all (o ∷ os) d = operate_all os (operate o (acquire d))
