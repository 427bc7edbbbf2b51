-- ===== src/Acquisition/Upload/Extraction/Outcome.antt =====
-- How process_item of the extraction worker leaves an item.
use roles.Prelude.{
  ℕ, zero, suc, ◌+◌, ◌≡◌, ◌<◌, refl, sym, ap, ◌∙◌, subst, String, true, Option, none, some, arith,
}
use roles.Db.Schema.{Db, SourceItem}
use roles.Db.TranscriptionJobs.{has_job_for_item}
use roles.Acquisition.Upload.TranscriptionEntry.{enter_transcription_pipeline}
use roles.Acquisition.Upload.Finalize.SingleJob.{enter-has_job}
use roles.Acquisition.Upload.Extraction.{
  Attempt, Extractor, audio_key_for, give_up, rounds, process_item,
}

add_none : (n : ℕ) → n + 0 ≡ n
add_none n = omega arith

module _ (x : Extractor) (i : SourceItem) (db : Db) where
  abbrev pub Fails : ℕ → String → Type 0
  Fails n m = x.extract n i ≡ Attempt.extraction_error m

  rounds-extracted :
      (left attempt j : ℕ) (last : Option String)
      → j < left
      → ((m : ℕ) → m < j → (e : String) × Fails (attempt + m) e)
      → x.extract (attempt + j) i ≡ Attempt.extracted
      → rounds x i left attempt last db ≡ enter_transcription_pipeline i (audio_key_for x i) db
  unfolding rounds
  rounds-extracted zero attempt j last h fails done = absurd (omega arith)
  rounds-extracted (suc left) attempt zero last h fails done =
      let here : x.extract attempt i ≡ Attempt.extracted =
        subst (λ n. x.extract n i ≡ Attempt.extracted) (add_none attempt) done in
      rw (here, rounds) refl
  rounds-extracted (suc left) attempt (suc j) last h fails done =
      let (e, first) = fails 0 (omega arith) in
      let here = subst (λ n. Fails n e) (add_none attempt) first in
      let shift : (m : ℕ) → attempt + suc m ≡ suc attempt + m = λ m. omega arith in
      rw (here, rounds)
        (rounds-extracted left (suc attempt) j (some e) (omega arith)
          (λ m lt. rw (← shift m) (fails (suc m) (omega arith))) (rw (← shift j) done))

  rounds-failed :
      (left attempt : ℕ) (last : Option String) (errors : ℕ → String)
      → ((m : ℕ) → m < suc left → Fails (attempt + m) (errors (attempt + m)))
      → rounds x i (suc left) attempt last db ≡ give_up i (some (errors (attempt + left))) db
  unfolding rounds
  rounds-failed zero attempt last errors fails =
      let here = subst (λ n. Fails n (errors n)) (add_none attempt) (fails 0 (omega arith)) in
      rw (here, rounds) (rw (add_none attempt) refl)
  rounds-failed (suc left) attempt last errors fails =
      let here = subst (λ n. Fails n (errors n)) (add_none attempt) (fails 0 (omega arith)) in
      let shift : (m : ℕ) → attempt + suc m ≡ suc attempt + m = λ m. omega arith in
      rw (here, rounds)
        (rw (shift left) (
          rounds-failed left (suc attempt) (some (errors attempt)) errors
            (λ m lt. rw (← shift m) (fails (suc m) (omega arith)))))

  -- If attempt 1 + n is the first that extracts the audio, and the limit allows it, the item enters the
  -- transcription pipeline with its mp3, and a transcription job is there for it.
  pub process_item-enters :
      (n : ℕ)
      → n < x.max_attempts
      → ((m : ℕ) → m < n → (e : String) × Fails (1 + m) e)
      → x.extract (1 + n) i ≡ Attempt.extracted
      → (process_item x i db ≡ enter_transcription_pipeline i (audio_key_for x i) db)
        × (has_job_for_item i.id (process_item x i db) ≡ true)
  unfolding process_item
  process_item-enters n h fails done =
      let entered = rounds-extracted x.max_attempts 1 n none h fails done in
      (
        entered,
        subst (λ d. has_job_for_item i.id d ≡ true) (sym entered)
            (enter-has_job i (audio_key_for x i) db),
      )

  -- If all of the attempts that the limit allows fail to extract, the item is failed with the text of the
  -- last one, and nothing else is written.
  pub process_item-give_up :
      (limit : ℕ) (errors : ℕ → String)
      → x.max_attempts ≡ suc limit
      → ((m : ℕ) → m < suc limit → Fails (1 + m) (errors (1 + m)))
      → process_item x i db ≡ give_up i (some (errors (1 + limit))) db
  unfolding process_item
  process_item-give_up limit errors h fails =
      ap (λ left. rounds x i left 1 none db) h ∙ rounds-failed limit 1 none errors fails
