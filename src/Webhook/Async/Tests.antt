-- ===== src/Webhook/Async/Tests.antt =====
-- One job that fails and that a worker takes again from the retry channel itself.
use mailvault.Base.{
  ◌+◌, ◌≡◌, ◌≤◌, refl, true, false, List, [], ◌∷◌, pos, negsuc, length, sub_ℕ, All,
}
use mailvault.Webhook.Async.{
  AsyncWorkerConfig, AsyncWorker, Event, accepted, completed, scheduled, taken, taken_directly,
  other, new_async_webhook_worker, apply_update,
}
use mailvault.Webhook.Async.Handlers.{
  Move, offer, take_webhook, take_retry, answer, decide, lock_stats, step, run, pick,
  enqueue_webhook, begin_attempt, take_from_queue, take_from_retries, has_free_worker,
  count_processed, settle, schedule_retry, count_update,
}
use mailvault.Webhook.Async.Lists.{tally}
use mailvault.Webhook.Async.Jobs.{held, came_in, went_out, no_job_lost}
use mailvault.Webhook.Async.Counters.{directly, as_completed}
use mailvault.Webhook.Async.Counters.Drift.{counters_drift}
use mailvault.Webhook.Async.Limits.{Allowed, attempts-Allowed}

abbrev config : AsyncWorkerConfig
config = record { buffer_size = 2; worker_count = 1; max_retry_age = 1000; max_retries = pos 3 }

abbrev moves : List Move
moves =
    offer 5 100
    ∷ lock_stats 0
    ∷ take_webhook 110
    ∷ answer 0 false
    ∷ decide 0 120
    ∷ lock_stats 0
    ∷ take_retry 130
    ∷ answer 0 true
    ∷ decide 0 140
    ∷ []

abbrev events : List Event
events =
    accepted 5
    ∷ other
    ∷ taken
    ∷ other
    ∷ scheduled 5
    ∷ other
    ∷ taken_directly
    ∷ other
    ∷ completed 5
    ∷ []

-- Nothing is left of the job, and yet the counters say that -1 is queued and that 1 waits for a retry.
drifted : AsyncWorker
drifted = record new_async_webhook_worker {
  stats = record {
    queue_size = negsuc 0;
    pending_retries = pos 1;
    total_processed = 2;
    total_retries = 1;
    total_abandoned = 0;
  };
}

runs : run config new_async_webhook_worker moves ≡ (drifted, events)
unfolding run step new_async_webhook_worker drifted enqueue_webhook take_from_queue
    take_from_retries has_free_worker count_processed settle schedule_retry count_update
    apply_update pick begin_attempt
runs = refl

no_job_lost_example :
    tally (came_in 5) (run config new_async_webhook_worker moves).1
    ≡ held 5 (run config new_async_webhook_worker moves).0
      + tally (went_out 5) (run config new_async_webhook_worker moves).1
no_job_lost_example = no_job_lost config 5 moves

no_updates : (run config new_async_webhook_worker moves).0.updates ≡ []
unfolding drifted new_async_webhook_worker
no_updates = rw runs refl

counters_drift_example :
    let (w, es) = run config new_async_webhook_worker moves in
    (w.stats.queue_size ≡ sub_ℕ (length w.webhook_queue + length w.sending) (tally directly es))
    × (w.stats.pending_retries
        ≡ pos (length w.retry_queue + length w.retry_jobs + length w.visiting + tally directly es))
    × (w.stats.total_processed
        ≡ tally as_completed es + length w.sent + w.stats.total_retries + w.stats.total_abandoned)
counters_drift_example = counters_drift config moves no_updates

attempts-Allowed_example :
    let w = (run config new_async_webhook_worker moves).0 in
    (length w.webhook_queue ≤ 2)
    × (length w.retry_queue ≤ 2)
    × (length w.sending + length w.sent ≤ 1)
    × All Allowed w.sending
attempts-Allowed_example = attempts-Allowed config moves
