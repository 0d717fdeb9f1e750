-- ===== src/Tests/DeliveryRuns.antt =====
-- cmd/gang/delivery.go: its properties at concrete inputs.
use gangline.Prelude.{◌≡◌, refl, ◌<◌, true, false, some, List, [], ◌∷◌, arith, ◌==◌, ◌+◌, All}
use gangline.Core.Types.{Agent, Envelope, Status}
use gangline.Delivery.{
  takes_nothing, clear_pending, rehitch_ready, reserved, completed_resume, is_startup_envelope,
  is_resume_envelope, outrank, capacity_envelope, find_id, ordinary, untouched,
}
use gangline.Delivery.Drain.{
  drain_loop, drain_round, retire_all, choose, first_due, attempt, after_native, after_input,
  after_capacity, leave, remove_id, type_envelope, Answers, kept_envelope, withdrawn_recorded,
  not_native, input_free, capacity_ready, typed, Drained, drain_locked, Mail,
}
use gangline.Delivery.Chosen.{count}
use gangline.Delivery.Drained.{IsSort, mail_of, arrivals, Accounted, drain_locked-Accounted}
use gangline.Delivery.Ends.{any, IsReturned, drain_locked-IsReturned}
use gangline.Delivery.Reasons.{Justified, drain_locked-Justified}
use gangline.Tests.Samples.{agent, letter}

abbrev member : Agent
member = record agent { status = Status.active }

-- every call succeeds and every envelope is delivered
abbrev answer : Answers
answer = record {
  agent = member;
  now = 5;
  arrived = [];
  lists = true;
  retires = λ e. kept_envelope;
  withdraws = λ e. withdrawn_recorded;
  opens = true;
  failed_startup = some false;
  native = λ e. not_native;
  input = input_free;
  capacity = λ e. capacity_ready;
  delivers = λ e. typed "delivered" false true;
}

abbrev two_letters : List Envelope
two_letters = letter ∷ record letter { id = "m2" } ∷ []

abbrev as_listed : List Envelope → List Envelope
as_listed es = es

as_listed-IsSort : IsSort as_listed
as_listed-IsSort = record { keeps = λ p es. refl }

abbrev run : Drained
run = drain_locked 4 member (λ n. answer) as_listed "m2" two_letters

run_empties : (mail_of run).queue ≡ []
unfolding drain_locked takes_nothing clear_pending rehitch_ready drain_loop drain_round retire_all
    choose reserved completed_resume is_startup_envelope first_due attempt is_resume_envelope
    outrank capacity_envelope after_native after_input after_capacity leave remove_id type_envelope
    find_id ordinary untouched
run_empties = refl

run_delivers : (mail_of run).result ≡ "delivered"
unfolding drain_locked takes_nothing clear_pending rehitch_ready drain_loop drain_round retire_all
    choose reserved completed_resume is_startup_envelope first_due attempt is_resume_envelope
    outrank capacity_envelope after_native after_input after_capacity leave remove_id type_envelope
    find_id ordinary untouched
run_delivers = refl

abbrev before : Mail
before = record { queue = two_letters; done = []; result = "queued" }

drain_locked-Accounted_example :
    Accounted as_listed as_listed-IsSort "m2" 4
      (λ id. id == "m2")
      (λ n. answer)
      0
      before
      (mail_of run)
drain_locked-Accounted_example =
    drain_locked-Accounted as_listed as_listed-IsSort "m2" 4 member (λ n. answer) two_letters
      (λ id. id == "m2")

four_are_enough : count any two_letters + arrivals any (λ n. answer) 0 4 < 4
unfolding count arrivals
four_are_enough = omega arith

drain_locked-IsReturned_example : IsReturned run
drain_locked-IsReturned_example =
    drain_locked-IsReturned as_listed as_listed-IsSort "m2" 4 member (λ n. answer) two_letters
      four_are_enough

drain_locked-Justified_example : All (λ x. Justified (λ n. answer) x) (mail_of run).done
drain_locked-Justified_example =
    drain_locked-Justified as_listed "m2" 4 member (λ n. answer) two_letters
