-- ===== src/Db/Schema/Statuses.antt =====
-- The columns of migrations/*.sql that hold one of a few texts, compared as these texts.
use roles.Prelude.{ℕ, true, Eq, ◌==◌, nat_eq, ◌≡◌, ◌↔◌, arith}

-- source_items.status
pub data ItemStatus : Type 0 where
  pending_download downloading audio_ready queued_transcription transcribing : ItemStatus
  transcribed depositing deposited failed : ItemStatus
  awaiting_upload pending_extraction extracting_audio : ItemStatus

-- scraping_jobs.status and transcription_jobs.status
pub data JobStatus : Type 0 where
  pending claimed processing done failed cancelled : JobStatus

-- acquisition_requests.status, and the two that are only derived for display
pub data RequestStatus : Type 0 where
  discovering discovered open_for_upload acquiring : RequestStatus
  cancelled failed completed partially_failed : RequestStatus

-- sources.status
pub data SourceStatus : Type 0 where
  pending_discovery discovered discovery_failed : SourceStatus

-- scraping_jobs.command
pub data Command : Type 0 where
  discover download : Command

-- acquisition_requests.kind and .mode
pub data Kind : Type 0 where
  scrape upload : Kind

pub data Mode : Type 0 where
  auto discover_only : Mode

-- user_transcription_keys.status
pub data KeyStatus : Type 0 where
  active exhausted invalid revoked : KeyStatus

-- transcription_workers.status
pub data WorkerStatus : Type 0 where
  starting idle busy stopped failed : WorkerStatus

-- user_secrets.storage
pub data SecretStorage : Type 0 where
  local wallet : SecretStorage

-- user_credentials.status
pub data CredentialStatus : Type 0 where
  active expired revoked invalid : CredentialStatus

abbrev pub item_status_code : ItemStatus → ℕ
item_status_code ItemStatus.pending_download = 0
item_status_code ItemStatus.downloading = 1
item_status_code ItemStatus.audio_ready = 2
item_status_code ItemStatus.queued_transcription = 3
item_status_code ItemStatus.transcribing = 4
item_status_code ItemStatus.transcribed = 5
item_status_code ItemStatus.depositing = 6
item_status_code ItemStatus.deposited = 7
item_status_code ItemStatus.failed = 8
item_status_code ItemStatus.awaiting_upload = 9
item_status_code ItemStatus.pending_extraction = 10
item_status_code ItemStatus.extracting_audio = 11

pub item_status_beq_iff :
    (a b : ItemStatus) → ((item_status_code a == item_status_code b) ≡ true) ↔ (a ≡ b)
item_status_beq_iff a b = ground arith

instance abbrev pub item_status_eq : Eq ItemStatus
item_status_eq = record {
  beq = λ a b. item_status_code a == item_status_code b;
  beq_iff = item_status_beq_iff;
}

abbrev pub job_status_code : JobStatus → ℕ
job_status_code JobStatus.pending = 0
job_status_code JobStatus.claimed = 1
job_status_code JobStatus.processing = 2
job_status_code JobStatus.done = 3
job_status_code JobStatus.failed = 4
job_status_code JobStatus.cancelled = 5

pub job_status_beq_iff :
    (a b : JobStatus) → ((job_status_code a == job_status_code b) ≡ true) ↔ (a ≡ b)
job_status_beq_iff a b = ground arith

instance abbrev pub job_status_eq : Eq JobStatus
job_status_eq = record {
  beq = λ a b. job_status_code a == job_status_code b;
  beq_iff = job_status_beq_iff;
}

abbrev pub request_status_code : RequestStatus → ℕ
request_status_code RequestStatus.discovering = 0
request_status_code RequestStatus.discovered = 1
request_status_code RequestStatus.open_for_upload = 2
request_status_code RequestStatus.acquiring = 3
request_status_code RequestStatus.cancelled = 4
request_status_code RequestStatus.failed = 5
request_status_code RequestStatus.completed = 6
request_status_code RequestStatus.partially_failed = 7

pub request_status_beq_iff :
    (a b : RequestStatus) → ((request_status_code a == request_status_code b) ≡ true) ↔ (a ≡ b)
request_status_beq_iff a b = ground arith

instance abbrev pub request_status_eq : Eq RequestStatus
request_status_eq = record {
  beq = λ a b. request_status_code a == request_status_code b;
  beq_iff = request_status_beq_iff;
}

abbrev pub command_code : Command → ℕ
command_code Command.discover = 0
command_code Command.download = 1

pub command_beq_iff : (a b : Command) → ((command_code a == command_code b) ≡ true) ↔ (a ≡ b)
command_beq_iff a b = ground arith

instance abbrev pub command_eq : Eq Command
command_eq = record { beq = λ a b. command_code a == command_code b; beq_iff = command_beq_iff }

abbrev pub kind_code : Kind → ℕ
kind_code Kind.scrape = 0
kind_code Kind.upload = 1

pub kind_beq_iff : (a b : Kind) → ((kind_code a == kind_code b) ≡ true) ↔ (a ≡ b)
kind_beq_iff a b = ground arith

instance abbrev pub kind_eq : Eq Kind
kind_eq = record { beq = λ a b. kind_code a == kind_code b; beq_iff = kind_beq_iff }

abbrev pub key_status_code : KeyStatus → ℕ
key_status_code KeyStatus.active = 0
key_status_code KeyStatus.exhausted = 1
key_status_code KeyStatus.invalid = 2
key_status_code KeyStatus.revoked = 3

pub key_status_beq_iff :
    (a b : KeyStatus) → ((key_status_code a == key_status_code b) ≡ true) ↔ (a ≡ b)
key_status_beq_iff a b = ground arith

instance abbrev pub key_status_eq : Eq KeyStatus
key_status_eq = record {
  beq = λ a b. key_status_code a == key_status_code b;
  beq_iff = key_status_beq_iff;
}

abbrev pub worker_status_code : WorkerStatus → ℕ
worker_status_code WorkerStatus.starting = 0
worker_status_code WorkerStatus.idle = 1
worker_status_code WorkerStatus.busy = 2
worker_status_code WorkerStatus.stopped = 3
worker_status_code WorkerStatus.failed = 4

pub worker_status_beq_iff :
    (a b : WorkerStatus) → ((worker_status_code a == worker_status_code b) ≡ true) ↔ (a ≡ b)
worker_status_beq_iff a b = ground arith

instance abbrev pub worker_status_eq : Eq WorkerStatus
worker_status_eq = record {
  beq = λ a b. worker_status_code a == worker_status_code b;
  beq_iff = worker_status_beq_iff;
}

abbrev pub credential_status_code : CredentialStatus → ℕ
credential_status_code CredentialStatus.active = 0
credential_status_code CredentialStatus.expired = 1
credential_status_code CredentialStatus.revoked = 2
credential_status_code CredentialStatus.invalid = 3

pub credential_status_beq_iff :
    (a b : CredentialStatus)
    → ((credential_status_code a == credential_status_code b) ≡ true) ↔ (a ≡ b)
credential_status_beq_iff a b = ground arith

instance abbrev pub credential_status_eq : Eq CredentialStatus
credential_status_eq = record {
  beq = λ a b. credential_status_code a == credential_status_code b;
  beq_iff = credential_status_beq_iff;
}
