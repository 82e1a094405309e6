-- ===== src/Webhook/Async/Counters/Drift.antt =====
-- The counters of internal/webhook/async_worker.go once no update waits for its lock.
use mailvault.Base.{ap, ℕ, ◌+◌, ◌≡◌, List, [], ◌∷◌, arith, length, pos, sub_ℕ, eq-sub_ℕ, eq-pos}
use mailvault.Webhook.Async.{AsyncWorkerConfig, AsyncWorker, new_async_webhook_worker}
use mailvault.Webhook.Async.Handlers.{Move, step, run}
use mailvault.Webhook.Async.Lists.{tally}
use mailvault.Webhook.Async.Counters.{
  is_queued, is_retried, is_requeued, is_dropped, directly, as_completed, as_scheduled,
  as_abandoned, Counted, step-Counted,
}

new-Counted : Counted 0 0 0 0 new_async_webhook_worker
unfolding new_async_webhook_worker tally
new-Counted = omega arith

run-Counted :
    (c : AsyncWorkerConfig) (ms : List Move) (d n s b : ℕ) (w : AsyncWorker)
    → Counted d n s b w
    → let r = run c w ms in
      Counted
        (d + tally directly r.1)
        (n + tally as_completed r.1)
        (s + tally as_scheduled r.1)
        (b + tally as_abandoned r.1)
        r.0
unfolding run tally
run-Counted c [] d n s b w h = omega arith
run-Counted c (m ∷ ms) d n s b w h =
    let ih = run-Counted c ms _ _ _ _ (step c w m).0 (step-Counted c d n s b w h m) in
    omega (arith, ih)

-- With no update that waits.
settled :
    (d n s b : ℕ) (w : AsyncWorker)
    → w.updates ≡ []
    → Counted d n s b w
    → (w.stats.queue_size ≡ sub_ℕ (length w.webhook_queue + length w.sending) d)
      × (w.stats.pending_retries
          ≡ pos (length w.retry_queue + length w.retry_jobs + length w.visiting + d))
      × (w.stats.total_processed
          ≡ n + length w.sent + w.stats.total_retries + w.stats.total_abandoned)
unfolding tally
settled d n s b w e h =
    let none_queued : tally is_queued w.updates ≡ 0 = ap (tally is_queued) e in
    let none_retried : tally is_retried w.updates ≡ 0 = ap (tally is_retried) e in
    let none_requeued : tally is_requeued w.updates ≡ 0 = ap (tally is_requeued) e in
    let none_dropped : tally is_dropped w.updates ≡ 0 = ap (tally is_dropped) e in
    (eq-sub_ℕ _ _ _ (omega arith), eq-pos _ _ (omega arith), omega arith)

-- However the goroutines interleave: when no update of the counters waits for the lock, each answer
-- that was counted is completed, counted as a retry, counted as abandoned or about to be decided. But
-- QueueSize is the jobs queued and under way less those that workers took from the retry channel
-- themselves, and PendingRetries the jobs that wait for a retry and those: both drift by each such job.
pub counters_drift :
    (c : AsyncWorkerConfig) (ms : List Move)
    → (run c new_async_webhook_worker ms).0.updates ≡ []
    → let (w, es) = run c new_async_webhook_worker ms in
      (w.stats.queue_size ≡ sub_ℕ (length w.webhook_queue + length w.sending) (tally directly es))
      × (w.stats.pending_retries
          ≡ pos
              (length w.retry_queue + length w.retry_jobs + length w.visiting + tally directly es))
      × (w.stats.total_processed
          ≡ tally as_completed es + length w.sent + w.stats.total_retries + w.stats.total_abandoned)
counters_drift c ms e =
    let (w, es) = run c new_async_webhook_worker ms in
    settled (tally directly es) (tally as_completed es) (tally as_scheduled es)
      (tally as_abandoned es) w e
      (omega (arith, run-Counted c ms 0 0 0 0 new_async_webhook_worker new-Counted))
