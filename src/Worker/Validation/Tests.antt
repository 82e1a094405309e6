-- ===== src/Worker/Validation/Tests.antt =====
-- A turn of a validation worker on a queue of one job whose domain is missing.
use Prim.Native.String.{String}
use mailvault.Base.{◌≡◌, refl, inl, false, true, [], none, pos}
use mailvault.Queue.{ValidationJob, full_validation, JobQueue}
use mailvault.Queue.Priority.{new_priority_queue, push}
use mailvault.Queue.Priority.Laws.{IsValid, new_priority_queue-IsValid, push_correct}
use mailvault.Validation.Memory.{memory, config, clock}
use mailvault.Worker.Validation.{JobError, Answers, returned, turn}
use mailvault.Worker.Validation.Outcome.{Turned, turn-Turned}

abbrev job : ValidationJob
job = record {
  id = 1;
  domain_id = 4;
  domain_name = "example.com";
  type = full_validation;
  priority = pos 1;
  created_at = 5;
  attempts = 0;
  last_error = "";
}

abbrev queue : JobQueue ValidationJob
queue = (push (new_priority_queue []) job).0

queue-IsValid : IsValid queue
queue-IsValid = (push_correct (new_priority_queue []) job (new_priority_queue-IsValid [])).1

abbrev answers : Answers
answers = record { mx = λ d. inl "timeout"; txt = λ d. inl "timeout"; full = λ d. inl "timeout" }

abbrev text : JobError → String
text err = "failed"

turn-Turned_example :
    let t = turn memory config text (none, none) clock 60 answers queue false false false in
    Turned memory config text clock 60 answers (none, none) queue false false false t.0 t.1 t.2
turn-Turned_example =
    turn-Turned memory config text clock 60 answers (none, none) queue false false false
      queue-IsValid

-- A job waits in the queue of a worker whose context is done.
left_alone :
    turn memory config text (none, none) clock 60 answers queue false true true
    ≡ ((none, none), queue, returned)
unfolding turn
left_alone = refl
