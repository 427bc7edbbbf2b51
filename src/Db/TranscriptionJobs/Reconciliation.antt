-- ===== src/Db/TranscriptionJobs/Reconciliation.antt =====
-- What the reconciliation of dead transcription jobs makes of each item.
use roles.Prelude.{
  ℕ, ◌+◌, ◌≡◌, ◌≢◌, refl, inl, inr, Bool, true, false, ◌&&◌, ◌||◌, not, ◌==◌, none, some, List, [],
  ◌∷◌, All, any_where, count_where, select_where, update_where, coalesce, update_where-All,
  count_where-zero, Bool-cases, arith, nat_eq, eq_of_beq,
}
use roles.Db.Schema.{
  Db, SourceItem, TranscriptionJob, ItemStatus, JobStatus, item_status_eq, job_status_eq,
}
use roles.Db.TranscriptionJobs.{in_flight, is_dead, fail_items_with_dead_transcription_jobs}

abbrev pub jobs_of : List TranscriptionJob → SourceItem → List TranscriptionJob
jobs_of jobs i = select_where (λ j. j.source_item_id == i.id) jobs

abbrev pub has_ended : JobStatus → Bool
has_ended JobStatus.done = true
has_ended JobStatus.failed = true
has_ended JobStatus.cancelled = true
has_ended _ = false

abbrev pub waits_for_transcription : ItemStatus → Bool
waits_for_transcription ItemStatus.queued_transcription = true
waits_for_transcription ItemStatus.transcribing = true
waits_for_transcription _ = false

-- An item that waits for a transcription in vain: all of its jobs have ended, and not all of them
-- without a failure.
abbrev pub IsLost : List TranscriptionJob → SourceItem → Type 0
IsLost jobs i =
    (waits_for_transcription i.status ≡ true)
    × All (λ j. has_ended j.status ≡ true) (jobs_of jobs i)
    × ¬ (All (λ j. j.status ≢ JobStatus.failed) (jobs_of jobs i))

-- The item with its failure, an error that it had already kept.
abbrev pub with_failure : ℕ → SourceItem → SourceItem
with_failure now i = record i {
  status = ItemStatus.failed;
  error = some (elim i.error [ none ↦ "TRANSCRIPTION_FAILED" | some e ↦ e ]);
  updated_at = now;
}

-- The rows after, in the place of the rows before: the lost ones failed, all others as they were.
abbrev pub AreReconciled : List TranscriptionJob → ℕ → List SourceItem → List SourceItem → Type 0
AreReconciled jobs now [] [] = Unit {0}
AreReconciled jobs now (i ∷ is) (i' ∷ is') =
    ((IsLost jobs i → i' ≡ with_failure now i) × (¬ (IsLost jobs i) → i' ≡ i))
    × AreReconciled jobs now is is'
AreReconciled jobs now _ _ = ⊥

in_flight-has_ended : (s : JobStatus) → in_flight s ≡ not (has_ended s)
in_flight-has_ended JobStatus.pending = refl
in_flight-has_ended JobStatus.claimed = refl
in_flight-has_ended JobStatus.processing = refl
in_flight-has_ended JobStatus.done = refl
in_flight-has_ended JobStatus.failed = refl
in_flight-has_ended JobStatus.cancelled = refl

waits_lem :
    (s : ItemStatus)
    → (s == ItemStatus.queued_transcription || s == ItemStatus.transcribing)
      ≡ waits_for_transcription s
waits_lem ItemStatus.pending_download = refl
waits_lem ItemStatus.downloading = refl
waits_lem ItemStatus.audio_ready = refl
waits_lem ItemStatus.queued_transcription = refl
waits_lem ItemStatus.transcribing = refl
waits_lem ItemStatus.transcribed = refl
waits_lem ItemStatus.depositing = refl
waits_lem ItemStatus.deposited = refl
waits_lem ItemStatus.failed = refl
waits_lem ItemStatus.awaiting_upload = refl
waits_lem ItemStatus.pending_extraction = refl
waits_lem ItemStatus.extracting_audio = refl

module _ (i : SourceItem) where
  abbrev has_failed_job : List TranscriptionJob → Bool
  has_failed_job = any_where (λ j. j.source_item_id == i.id && j.status == JobStatus.failed)

  abbrev has_running_job : List TranscriptionJob → Bool
  has_running_job = any_where (λ j. j.source_item_id == i.id && in_flight j.status)

  ended→none_runs :
      (jobs : List TranscriptionJob)
      → All (λ j. has_ended j.status ≡ true) (jobs_of jobs i)
      → has_running_job jobs ≡ false
  ended→none_runs [] h = refl
  ended→none_runs (j ∷ js) h = elim (Bool-cases (j.source_item_id == i.id)) [
    | inl e ↦
        let h' = rw e at h in rw (e, in_flight-has_ended j.status, h'.0) (ended→none_runs js h'.1)
    | inr e ↦ rw e (ended→none_runs js (rw e at h))
  ]

  none_runs→ended :
      (jobs : List TranscriptionJob)
      → has_running_job jobs ≡ false
      → All (λ j. has_ended j.status ≡ true) (jobs_of jobs i)
  none_runs→ended [] h = tt
  none_runs→ended (j ∷ js) h = elim (Bool-cases (j.source_item_id == i.id)) [
    | inl e ↦ rw e (ground (arith, in_flight-has_ended j.status), none_runs→ended js (ground arith))
    | inr e ↦ rw e (none_runs→ended js (rw e at h))
  ]

  none_failed :
      (jobs : List TranscriptionJob)
      → has_failed_job jobs ≡ false
      → All (λ j. j.status ≢ JobStatus.failed) (jobs_of jobs i)
  none_failed [] h = tt
  none_failed (j ∷ js) h = elim (Bool-cases (j.source_item_id == i.id)) [
    | inl e ↦ rw e ((λ k. ground arith), none_failed js (ground arith))
    | inr e ↦ rw e (none_failed js (rw e at h))
  ]

  some_failed :
      (jobs : List TranscriptionJob)
      → has_failed_job jobs ≡ true
      → ¬ (All (λ j. j.status ≢ JobStatus.failed) (jobs_of jobs i))
  some_failed [] h = λ k. absurd (cc h)
  some_failed (j ∷ js) h = elim (Bool-cases (j.source_item_id == i.id)) [
    | inl e ↦ rw e (λ k. elim (Bool-cases (j.status == JobStatus.failed)) [
      | inl f ↦ k.0 (eq_of_beq j.status JobStatus.failed f)
      | inr f ↦ some_failed js (rw (e, f) at h) k.1
    ])
    | inr e ↦ rw e (some_failed js (rw e at h))
  ]

is_dead-IsLost :
    (jobs : List TranscriptionJob) (i : SourceItem) → is_dead jobs i ≡ true → IsLost jobs i
is_dead-IsLost jobs i h = (
  ground (arith, waits_lem i.status),
  none_runs→ended i jobs (ground arith),
  some_failed i jobs (ground arith),
)

IsLost-is_dead :
    (jobs : List TranscriptionJob) (i : SourceItem) → IsLost jobs i → is_dead jobs i ≡ true
IsLost-is_dead jobs i (waits, ended, failed) = elim (Bool-cases (has_failed_job i jobs)) [
  | inl e ↦ rw (waits_lem i.status, waits, e, ended→none_runs i jobs ended) refl
  | inr e ↦ absurd (failed (none_failed i jobs e))
]

abbrev fail_item : ℕ → SourceItem → SourceItem
fail_item now i = record i {
  status = ItemStatus.failed;
  error = coalesce i.error (some "TRANSCRIPTION_FAILED");
  updated_at = now;
}

fail_item-with_failure : (now : ℕ) (i : SourceItem) → fail_item now i ≡ with_failure now i
fail_item-with_failure now i = ground arith

update_where-AreReconciled :
    (jobs : List TranscriptionJob) (now : ℕ) (is : List SourceItem)
    → AreReconciled jobs now is (update_where (is_dead jobs) (fail_item now) is)
update_where-AreReconciled jobs now [] = tt
update_where-AreReconciled jobs now (i ∷ is) =
    let rest = update_where-AreReconciled jobs now is in
    elim (Bool-cases (is_dead jobs i)) [
      | inl e ↦
          rw e (
            ((λ l. fail_item-with_failure now i), (λ k. absurd (k (is_dead-IsLost jobs i e)))),
            rest,
          )
      | inr e ↦ rw e (((λ l. absurd (cc (e, IsLost-is_dead jobs i l))), (λ k. refl)), rest)
    ]

abbrev pub has_failed : SourceItem → Bool
has_failed i = i.status == ItemStatus.failed

dead_not_failed :
    (jobs : List TranscriptionJob) (i : SourceItem) → is_dead jobs i ≡ true → has_failed i ≡ false
dead_not_failed jobs i e = ground arith

update_where-count :
    (jobs : List TranscriptionJob) (now : ℕ) (is : List SourceItem)
    → count_where has_failed (update_where (is_dead jobs) (fail_item now) is)
      ≡ count_where has_failed is + count_where (is_dead jobs) is
update_where-count jobs now [] = omega arith
update_where-count jobs now (i ∷ is) = elim (Bool-cases (is_dead jobs i)) [
  | inl e ↦ rw (e, dead_not_failed jobs i e) (omega (arith, update_where-count jobs now is))
  | inr e ↦ rw e (omega (arith, update_where-count jobs now is))
]

-- The reconciliation fails an item, with the error it had or else TRANSCRIPTION_FAILED, exactly when
-- it waits for a transcription, all of its jobs have ended and one of them failed, and leaves every
-- other item and the jobs as they were; it answers how many items it failed, and a second one fails
-- none.
pub fail_items_with_dead_transcription_jobs-AreReconciled :
    (db : Db)
    → let (count, db') = fail_items_with_dead_transcription_jobs db in
      AreReconciled db.transcription_jobs db.now db.source_items db'.source_items
      × (db'.transcription_jobs ≡ db.transcription_jobs)
      × (count_where has_failed db'.source_items ≡ count_where has_failed db.source_items + count)
      × ((fail_items_with_dead_transcription_jobs db').0 ≡ 0)
unfolding fail_items_with_dead_transcription_jobs
fail_items_with_dead_transcription_jobs-AreReconciled db = (
  update_where-AreReconciled db.transcription_jobs db.now db.source_items,
  refl,
  update_where-count db.transcription_jobs db.now db.source_items,
  count_where-zero (is_dead db.transcription_jobs)
      (update_where (is_dead db.transcription_jobs) (fail_item db.now) db.source_items)
      (update_where-All (λ i. is_dead db.transcription_jobs i ≡ false)
        (is_dead db.transcription_jobs) (fail_item db.now) db.source_items (λ i e. refl)
        (λ i e. e)),
)
