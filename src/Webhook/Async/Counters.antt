-- ===== src/Webhook/Async/Counters.antt =====
-- What the counters of internal/webhook/async_worker.go say.
pub mod Drift
use mailvault.Base.{
  ap, ℕ, zero, suc, ◌+◌, ◌-◌, ◌≡◌, refl, Bool, true, false, ◌&&◌, List, [], ◌∷◌, ◌++◌, Option, none,
  some, arith, ltb, if◌then◌else◌, if_rule, length, length-append, pos, z_ltb, pos_part, neg_part,
  increment_parts, decrement_parts, sub_ℕ, eq-sub_ℕ,
}
use mailvault.Webhook.Async.{
  WebhookJob, WorkerStats, AsyncWorkerConfig, Update, queued, retried, requeued, dropped,
  AsyncWorker, Event, accepted, queue_full, completed, scheduled, abandoned, taken, taken_directly,
  other, idle, new_async_webhook_worker, apply_update,
}
use mailvault.Webhook.Async.Handlers.{
  enqueue_webhook, begin_attempt, take_from_queue, take_from_retries, has_free_worker,
  count_processed, abandon_webhook_job, schedule_retry, settle, collect, start_round, visit,
  count_update, Move, offer, take_webhook, take_retry, answer, decide, receive_retry, tick, look,
  lock_stats, step, run, pick, is_due,
}
use mailvault.Webhook.Async.Lists.{tally, tally-snoc, Picked, PickedFrom, pick-PickedFrom}

is_queued : Update → ℕ
is_queued queued = 1
is_queued _ = 0

is_retried : Update → ℕ
is_retried retried = 1
is_retried _ = 0

is_requeued : Update → ℕ
is_requeued requeued = 1
is_requeued _ = 0

is_dropped : Update → ℕ
is_dropped dropped = 1
is_dropped _ = 0

-- The jobs that a worker took from the retry channel itself, and the three ends of an attempt.
pub directly : Event → ℕ
directly taken_directly = 1
directly _ = 0

pub as_completed : Event → ℕ
as_completed (completed id) = 1
as_completed _ = 0

pub as_scheduled : Event → ℕ
as_scheduled (scheduled id) = 1
as_scheduled _ = 0

pub as_abandoned : Event → ℕ
as_abandoned (abandoned id) = 1
as_abandoned _ = 0

-- The counters after `d` jobs taken directly and `n`, `s` and `b` ends, with the updates that wait.
abbrev Counted : ℕ → ℕ → ℕ → ℕ → AsyncWorker → Type 0
Counted d n s b w =
    (pos_part w.stats.queue_size + tally is_queued w.updates + tally is_requeued w.updates + d
      ≡ length w.webhook_queue + length w.sending + neg_part w.stats.queue_size)
    × (pos_part w.stats.pending_retries + tally is_retried w.updates
        ≡ length w.retry_queue
          + length w.retry_jobs
          + length w.visiting
          + d
          + tally is_requeued w.updates
          + neg_part w.stats.pending_retries)
    × (w.stats.total_processed ≡ n + length w.sent + s + b)
    × (w.stats.total_retries + tally is_retried w.updates ≡ s)
    × (w.stats.total_abandoned + tally is_dropped w.updates ≡ b)

by_kind :
    {us : List Update} {u : Update} {others : List Update}
    → Picked us u others
    → (tally is_queued us ≡ is_queued u + tally is_queued others)
      × (tally is_retried us ≡ is_retried u + tally is_retried others)
      × (tally is_requeued us ≡ is_requeued u + tally is_requeued others)
      × (tally is_dropped us ≡ is_dropped u + tally is_dropped others)
by_kind p = (p.sums is_queued, p.sums is_retried, p.sums is_requeued, p.sums is_dropped)

module _ (c : AsyncWorkerConfig) (d n s b : ℕ) where
  abbrev After : AsyncWorker × Event → Type 0
  After (w, e) =
      Counted (d + directly e) (n + as_completed e) (s + as_scheduled e) (b + as_abandoned e) w

  module _ (w : AsyncWorker) (h : Counted d n s b w) where
    stays : After (w, idle)
    unfolding directly as_completed as_scheduled as_abandoned
    stays = omega arith

    enqueue_webhook-Counted : (id now : ℕ) → After (enqueue_webhook c w id now)
    unfolding enqueue_webhook directly as_completed as_scheduled as_abandoned tally is_queued
        is_retried is_requeued is_dropped
    enqueue_webhook-Counted id now =
        if_rule After (ltb (length w.webhook_queue) c.buffer_size)
          (λ _. omega (arith, length-append w.webhook_queue (_ ∷ []))) (λ _. omega arith)

    take_from_queue-Counted :
        (now : ℕ) (q : List WebhookJob) → w.webhook_queue ≡ q → After (take_from_queue w now q)
    unfolding take_from_queue directly as_completed as_scheduled as_abandoned
    take_from_queue-Counted now [] e = omega arith
    take_from_queue-Counted now (job ∷ rest) e = omega (arith, ap length e)

    take_from_retries-Counted :
        (now : ℕ) (q : List WebhookJob) → w.retry_queue ≡ q → After (take_from_retries w now q)
    unfolding take_from_retries directly as_completed as_scheduled as_abandoned
    take_from_retries-Counted now [] e = omega arith
    take_from_retries-Counted now (job ∷ rest) e = omega (arith, ap length e)

    count_processed-Counted :
        (success : Bool) (o : Option (WebhookJob × List WebhookJob))
        → PickedFrom w.sending o
        → After (count_processed w success o)
    unfolding count_processed directly as_completed as_scheduled as_abandoned
    count_processed-Counted success none p = omega arith
    count_processed-Counted success (some (job, others)) p =
        omega (arith, p.sizes, decrement_parts w.stats.queue_size)

    collect-Counted : (q : List WebhookJob) → w.retry_queue ≡ q → After (collect w q)
    unfolding collect directly as_completed as_scheduled as_abandoned
    collect-Counted [] e = omega arith
    collect-Counted (job ∷ rest) e =
        omega (arith, ap length e, length-append w.retry_jobs (job ∷ []))

    start_round-Counted :
        (now : ℕ) (q : List WebhookJob) → w.visiting ≡ q → After (start_round w now q)
    unfolding start_round directly as_completed as_scheduled as_abandoned
    start_round-Counted now [] e = omega (arith, ap length e)
    start_round-Counted now (job ∷ rest) e = omega arith

    visit-Counted : (q : List WebhookJob) → w.visiting ≡ q → After (visit c w q)
    unfolding visit directly as_completed as_scheduled as_abandoned tally is_queued is_retried
        is_requeued is_dropped
    visit-Counted [] e = omega arith
    visit-Counted (job ∷ rest) e =
        if_rule After
          (is_due w.round job.next_retry_at && ltb (length w.webhook_queue) c.buffer_size)
          (λ _. omega (arith, ap length e, length-append w.webhook_queue (job ∷ [])))
          λ _. omega (arith, ap length e, length-append w.retry_jobs (job ∷ []))

    count_update-Counted :
        (o : Option (Update × List Update)) → PickedFrom w.updates o → After (count_update w o)
    unfolding count_update apply_update directly as_completed as_scheduled as_abandoned is_queued
        is_retried is_requeued is_dropped
    count_update-Counted none p = omega arith
    count_update-Counted (some (queued, others)) p =
        omega (arith, by_kind p, increment_parts w.stats.queue_size)
    count_update-Counted (some (retried, others)) p =
        omega (arith, by_kind p, increment_parts w.stats.pending_retries)
    count_update-Counted (some (requeued, others)) p = omega (
      arith,
      by_kind p,
      increment_parts w.stats.queue_size,
      decrement_parts w.stats.pending_retries,
    )
    count_update-Counted (some (dropped, others)) p = omega (arith, by_kind p)

    settle-Counted :
        (now : ℕ) (o : Option ((WebhookJob × Bool) × List (WebhookJob × Bool)))
        → PickedFrom w.sent o
        → After (settle c w now o)
    unfolding settle schedule_retry abandon_webhook_job directly as_completed as_scheduled
        as_abandoned tally is_queued is_retried is_requeued is_dropped
    settle-Counted now none p = omega arith
    settle-Counted now (some ((job, true), others)) p = omega (arith, p.sizes)
    settle-Counted now (some ((job, false), others)) p =
        if_rule After
          (z_ltb (pos job.attempts) job.max_retries && ltb (now - job.created_at) c.max_retry_age)
          (λ _.
            if_rule After (ltb (length w.retry_queue) c.buffer_size)
              (λ _. omega (arith, p.sizes, length-append w.retry_queue (_ ∷ [])))
              λ _. omega (arith, p.sizes))
          λ _. omega (arith, p.sizes)

    step-Counted : (m : Move) → After (step c w m)
    unfolding step
    step-Counted (offer id now) = enqueue_webhook-Counted id now
    step-Counted (take_webhook now) =
        if_rule After (has_free_worker c w) (λ _. take_from_queue-Counted now w.webhook_queue refl)
          (λ _. stays)
    step-Counted (take_retry now) =
        if_rule After (has_free_worker c w) (λ _. take_from_retries-Counted now w.retry_queue refl)
          (λ _. stays)
    step-Counted (answer i success) =
        count_processed-Counted success _ (pick-PickedFrom i w.sending)
    step-Counted (decide i now) = settle-Counted now _ (pick-PickedFrom i w.sent)
    step-Counted receive_retry =
        if_rule After (ltb 0 (length w.visiting)) (λ _. stays)
          (λ _. collect-Counted w.retry_queue refl)
    step-Counted (tick now) = start_round-Counted now w.visiting refl
    step-Counted look = visit-Counted w.visiting refl
    step-Counted (lock_stats i) = count_update-Counted _ (pick-PickedFrom i w.updates)
