-- ===== src/Restart/Examples.antt =====
-- A request on concrete input, with values of one byte that count seconds.
use crucible_analytic.Prelude.{
  ℕ, ◌≤◌, ◌≡◌, arith, refl, true, false, List, [], ◌∷◌, Option, none, some, Bytes, codes, ◌&&◌,
}
use crucible_analytic.Prelude.Text.{is_empty, bytes_eq}
use crucible_analytic.Restart.Watcher.{
  new_state, row, Question, satisfied, privilege_recheck, asks_role, step, ask_role, who_answer,
  role_lines, with_role, when_started, read_request, found, judge, report,
}
use crucible_analytic.Restart.Service.{
  Service, Event, ticks, row_becomes, polls, answered, poll, happen, happen_all, first_process,
  read_from, started_from, restarted,
}
use crucible_analytic.Restart.Loop.{
  answers_may, may_read, requested_in, asks_exit, step-go, exits-happen_all, poll-satisfied,
}

abbrev one_byte : Bytes → Option ℕ
one_byte [] = none
one_byte (c ∷ s) = some c

abbrev question : Question
question = record {
  stopping = false;
  who = some (codes "web", true);
  started = some 0;
  read = row none 0;
  clock = 3;
  asked = 3;
  refused = 3;
}

-- A request of the future, asked for before it is due, when it is, and again.
abbrev events : List Event
events =
    ticks 2
    ∷ row_becomes (some (9 ∷ []))
    ∷ polls question 1
    ∷ ticks 8
    ∷ polls question 1
    ∷ polls question 1
    ∷ []

one_exit : (happen_all one_byte privilege_recheck (first_process 0) events).exits ≡ 1
unfolding happen_all happen poll restarted answered read_from started_from step ask_role asks_role
    who_answer role_lines with_role when_started read_request found judge report is_empty bytes_eq
one_exit = refl

exits-happen_all_example :
    (happen_all one_byte privilege_recheck (first_process 0) events).exits
    ≤ (happen_all one_byte privilege_recheck (first_process 0) events).writes
exits-happen_all_example = exits-happen_all one_byte privilege_recheck 0 events

step-go_example : (step one_byte privilege_recheck new_state question).go ≡ (
    may_read privilege_recheck new_state question
    && asks_exit one_byte question.started question.read)
step-go_example = step-go one_byte privilege_recheck new_state question

abbrev asked_service : Service
asked_service = record {
  clock = 12;
  value = some (9 ∷ []);
  state = new_state;
  started = 5;
  exits = 0;
  writes = 1;
}

poll-satisfied_example :
    satisfied 9 (poll one_byte privilege_recheck asked_service question 1).started ≡ true
unfolding requested_in may_read asks_role answered answers_may is_empty
poll-satisfied_example =
    poll-satisfied one_byte privilege_recheck asked_service question 1 9 refl (omega arith) 0 refl
      none 0 refl refl
