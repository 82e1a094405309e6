-- ===== src/Queue/Scheduler/Laws.antt =====
-- A check of the scheduler loses no job, and leaves only what is not due or could not be queued.
use mathlib.Core.List.{Perm, append_assoc, append-nil, perm_middle}
use mathlib.Core.List.Perm
use mailvault.Base.{
  ℕ, ◌≡◌, refl, ◌∙◌, ap, ◌≢◌, inl, inr, Bool, true, false, List, [], ◌∷◌, ◌++◌, map, Option, none,
  some, arith, if◌then◌else◌, if_rule, All, ==_iff, Bool-cases, is_nil, ◌&&◌,
}
use mailvault.Queue.{ValidationJob, QueueError}
use mailvault.Queue.Scheduler.Map.{Keyed}
use mailvault.Queue.Scheduler.{
  ScheduledJob, Queue, is_due, remove, remove_all, note, visit, visit_all, check_scheduled_jobs,
}

-- What a check at a time may leave of a list of entries: it drops only entries that are due.
pub data Sifted (now : ℕ) : List ScheduledJob → List ScheduledJob → Type 0 where
  none_left : Sifted now [] []
  stays :
      {es ks : List ScheduledJob} (e : ScheduledJob)
      → Sifted now es ks
      → Sifted now (e ∷ es) (e ∷ ks)
  leaves :
      {es ks : List ScheduledJob} (e : ScheduledJob)
      → is_due now e ≡ true
      → Sifted now es ks
      → Sifted now (e ∷ es) ks

Sifted-All :
    {now : ℕ} {es ks : List ScheduledJob} (P : ScheduledJob → Type 0)
    → Sifted now es ks
    → All P es
    → All P ks
Sifted-All P none_left a = a
Sifted-All P (stays e r) a = (a.0, Sifted-All P r a.1)
Sifted-All P (leaves e d r) a = Sifted-All P r a.1

Sifted-Keyed : {now : ℕ} {es ks : List ScheduledJob} → Sifted now es ks → Keyed es → Keyed ks
Sifted-Keyed none_left k = k
Sifted-Keyed (stays e r) k = (Sifted-All _ r k.0, Sifted-Keyed r k.1)
Sifted-Keyed (leaves e d r) k = Sifted-Keyed r k.1

remove-skip :
    (id : ℕ) (e : ScheduledJob) (es : List ScheduledJob)
    → id ≢ e.job.id
    → remove id (e ∷ es) ≡ e ∷ remove id es
unfolding remove
remove-skip id e es h = ground arith

remove_all-skip :
    (ids : List ℕ) (e : ScheduledJob) (es : List ScheduledJob)
    → All (λ i. i ≢ e.job.id) ids
    → remove_all ids (e ∷ es) ≡ e ∷ remove_all ids es
unfolding remove_all
remove_all-skip [] e es h = refl
remove_all-skip (id ∷ ids) e es h =
    rw (remove-skip id e es h.0) (remove_all-skip ids e (remove id es) h.1)

remove-head : (e : ScheduledJob) (es : List ScheduledJob) → remove e.job.id (e ∷ es) ≡ es
unfolding remove
remove-head e es = rw ((==_iff e.job.id e.job.id).1 refl) refl

abbrev jobs_of : List ScheduledJob → List ValidationJob
jobs_of = map (λ e. e.job)

module _ (q : Queue) (now : ℕ) where
  open q use {State, push, contents, Good}

  -- Whether the round for e queues its job.
  abbrev is_queued : State → ScheduledJob → Bool
  is_queued s e = is_due now e && is_nil (push s e.job).1

  abbrev next : State → ScheduledJob → State
  next s e = if is_due now e then (push s e.job).0 else s

  -- The ids that the loop notes, and the entries of the other rounds.
  abbrev queued_ids : State → List ScheduledJob → List ℕ
  queued_ids s [] = []
  queued_ids s (e ∷ es) =
      let rest = queued_ids (next s e) es in if is_queued s e then e.job.id ∷ rest else rest

  abbrev kept : State → List ScheduledJob → List ScheduledJob
  kept s [] = []
  kept s (e ∷ es) = let rest = kept (next s e) es in if is_queued s e then rest else e ∷ rest

  note_lem :
      (e : ScheduledJob) (ids : List ℕ) (r : State × Option QueueError)
      → note q e ids r ≡ (r.0, if is_nil r.1 then ids ++ e.job.id ∷ [] else ids)
  unfolding note
  note_lem e ids (s, none) = refl
  note_lem e ids (s, some err) = refl

  visit_lem :
      (s : State) (ids : List ℕ) (e : ScheduledJob)
      → visit q now s ids e ≡ (next s e, if is_queued s e then ids ++ e.job.id ∷ [] else ids)
  unfolding visit
  visit_lem s ids e = elim (Bool-cases (is_due now e)) [
    | inl due ↦ rw due (note_lem e ids (push s e.job))
    | inr early ↦ rw early
  ]

  final : State → List ScheduledJob → State
  final s [] = s
  final s (e ∷ es) = final (next s e) es

  visit_all_lem :
      (s : State) (ids : List ℕ) (es : List ScheduledJob)
      → visit_all q now s ids es ≡ (final s es, ids ++ queued_ids s es)
  unfolding visit_all final
  visit_all_lem s ids [] = rw append-nil
  visit_all_lem s ids (e ∷ es) = rw visit_lem (elim (Bool-cases (is_queued s e)) [
    | inl y ↦ rw y (rw (visit_all_lem (next s e) (ids ++ e.job.id ∷ []) es) (rw append_assoc))
    | inr n ↦ rw n (visit_all_lem (next s e) ids es)
  ])

  queued_ids-ne :
      (s : State) (id : ℕ) (es : List ScheduledJob)
      → All (λ f. f.job.id ≢ id) es
      → All (λ i. i ≢ id) (queued_ids s es)
  queued_ids-ne s id [] h = tt
  queued_ids-ne s id (e ∷ es) h =
      if_rule (All (λ i. i ≢ id)) (is_queued s e) (λ _. (h.0, queued_ids-ne (next s e) id es h.1))
        (λ _. queued_ids-ne (next s e) id es h.1)

  remove_all-kept :
      (s : State) (es : List ScheduledJob) → Keyed es → remove_all (queued_ids s es) es ≡ kept s es
  unfolding remove_all remove
  remove_all-kept s [] k = refl
  remove_all-kept s (e ∷ es) k = elim (Bool-cases (is_queued s e)) [
    | inl y ↦ rw y (
        ap (remove_all (queued_ids (next s e) es)) (remove-head e es)
        ∙ remove_all-kept (next s e) es k.1)
    | inr n ↦ rw n (
        remove_all-skip (queued_ids (next s e) es) e es (queued_ids-ne (next s e) e.job.id es k.0)
        ∙ ap (◌∷◌ e) (remove_all-kept (next s e) es k.1))
  ]

  next-Good : (s : State) (e : ScheduledJob) → Good s → Good (next s e)
  next-Good s e g = if_rule Good (is_due now e) (λ _. q.push-Good s e.job g) (λ _. g)

  final-Good : (s : State) (es : List ScheduledJob) → Good s → Good (final s es)
  unfolding final
  final-Good s [] g = g
  final-Good s (e ∷ es) g = final-Good (next s e) es (next-Good s e g)

  is_nil-none : (o : Option QueueError) → is_nil o ≡ true → o ≡ none
  is_nil-none none h = refl
  is_nil-none (some e) h = absurd (ground arith)

  is_nil-some : (o : Option QueueError) → is_nil o ≡ false → (e : QueueError) × (o ≡ some e)
  is_nil-some none h = absurd (ground arith)
  is_nil-some (some e) h = (e, refl)

  next-queued :
      (s : State) (e : ScheduledJob)
      → Good s
      → is_queued s e ≡ true
      → Perm (contents (next s e)) (e.job ∷ contents s)
  next-queued s e g y = elim (Bool-cases (is_due now e)) [
    | inl due ↦ rw due (q.push_added s e.job g (is_nil-none _ (rw due at y)))
    | inr early ↦ absurd (ground (arith, y, early))
  ]

  next-kept :
      (s : State) (e : ScheduledJob)
      → Good s
      → is_queued s e ≡ false
      → contents (next s e) ≡ contents s
  next-kept s e g n = elim (Bool-cases (is_due now e)) [
    | inl due ↦
        let (err, h) = is_nil-some _ (rw due at n) in rw due (q.push_refused s e.job err g h)
    | inr early ↦ rw early
  ]

  final-Perm :
      (s : State) (es : List ScheduledJob)
      → Good s
      → Perm (contents (final s es) ++ jobs_of (kept s es)) (contents s ++ jobs_of es)
  unfolding final
  final-Perm s [] g = Perm.refl _
  final-Perm s (e ∷ es) g =
      let ih = final-Perm (next s e) es (next-Good s e g) in
      elim (Bool-cases (is_queued s e)) [
        | inl y ↦ rw y (
            Perm.trans ih (
              Perm.trans (Perm.append (next-queued s e g y) (Perm.refl (jobs_of es)))
                (Perm.symm (perm_middle (contents s) (jobs_of es)))))
        | inr n ↦ rw n (
            Perm.trans (perm_middle (contents (final (next s e) es)) (jobs_of (kept (next s e) es)))
              (Perm.trans (Perm.cons e.job (rw (next-kept s e g n) at ih))
                (Perm.symm (perm_middle (contents s) (jobs_of es)))))
      ]

  kept-Sifted : (s : State) (es : List ScheduledJob) → Sifted now es (kept s es)
  kept-Sifted s [] = none_left
  kept-Sifted s (e ∷ es) =
      let ih = kept-Sifted (next s e) es in
      if_rule (Sifted now (e ∷ es)) (is_queued s e) (λ y. leaves e (ground (arith, y)) ih)
        (λ _. stays e ih)

  check_lem :
      (s : State) (es : List ScheduledJob)
      → Keyed es
      → check_scheduled_jobs q now s es ≡ (final s es, kept s es)
  unfolding check_scheduled_jobs
  check_lem s es k = rw (visit_all_lem s [] es) (rw (remove_all-kept s es k) refl)

  -- A check of the scheduler, on a map without a key twice and a queue in a good state, keeps both so.
  -- Of the entries only ones that are due leave the map, and the jobs queued and those scheduled are
  -- together the jobs that they were before: none is lost and none is queued twice.
  pub check_scheduled_jobs_correct :
      (s : State) (es : List ScheduledJob)
      → Good s
      → Keyed es
      → let (s', es') = check_scheduled_jobs q now s es in
        Good s'
        × Keyed es'
        × Sifted now es es'
        × Perm (contents s' ++ map (λ e. e.job) es') (contents s ++ map (λ e. e.job) es)
  check_scheduled_jobs_correct s es g k =
      rw (check_lem s es k)
        (final-Good s es g, Sifted-Keyed (kept-Sifted s es) k, kept-Sifted s es, final-Perm s es g)
