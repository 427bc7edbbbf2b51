-- ===== src/Db/Schema.antt =====
-- The tables of migrations/*.sql that the pipeline reads and writes, one record for a row. A UUID
-- is a number, drawn from `next_id` where the schema says gen_random_uuid(); a timestamp is a
-- number; a nullable column is an Option. Columns that no modelled statement reads are left out.
pub mod Statuses
pub use Statuses.*
use roles.Prelude.{ℕ, String, Bool, true, Option, List, Eq, ◌==◌, nat_eq, ◌≡◌, ◌↔◌, arith}

pub record Source : Type 0 where
  pub id : ℕ
  pub role_project_id : Option ℕ
  pub tenant_id : ℕ
  pub platform : String
  pub source_type : String
  pub url : Option String
  pub status : SourceStatus
  pub credentials_id : Option ℕ
  pub discovered_count : Option ℕ
  pub error : Option String

pub record SourceItem : Type 0 where
  pub id : ℕ
  pub source_id : ℕ
  pub tenant_id : ℕ
  pub platform_item_id : String
  pub title : Option String
  pub duration_s : Option ℕ
  pub published_at : Option ℕ
  pub status : ItemStatus
  pub audio_s3_key : Option String
  pub transcript_s3_key : Option String
  pub upload_s3_key : Option String
  pub upload_media_type : Option String
  pub upload_expires_at : Option ℕ
  pub selected : Bool
  pub error : Option String
  pub docflow_doc_id : Option String
  pub docflow_slug : Option String
  pub deposited_at : Option ℕ
  pub updated_at : ℕ

pub record ScrapingJob : Type 0 where
  pub id : ℕ
  pub source_id : ℕ
  pub source_item_id : Option ℕ
  pub tenant_id : ℕ
  pub credentials_id : Option ℕ
  pub command : Command
  pub status : JobStatus
  pub priority : ℕ
  pub claimed_by : Option String
  pub attempts : ℕ
  pub error : Option String
  pub created_at : ℕ

pub record TranscriptionJob : Type 0 where
  pub id : ℕ
  pub source_item_id : ℕ
  pub tenant_id : ℕ
  pub audio_s3_key : String
  pub language : Option String
  pub worker_pool_id : String
  pub status : JobStatus
  pub priority : ℕ
  pub claimed_by : Option String
  pub attempts : ℕ
  pub error : Option String
  pub error_history : List String
  pub provider_used : Option String
  pub result_s3_key : Option String
  pub created_at : ℕ

-- A JSON value as the facade receives it. `neg n` is the integer -(n + 1); `other` is a float, a
-- list or an object, which no key of the filters admits.
pub data Json : Type 0 where
  null : Json
  bool : Bool → Json
  num : ℕ → Json
  neg : ℕ → Json
  str : String → Json
  other : Json

-- The jsonb of acquisition_requests.filters; a key that is absent reads as null (`filters.get`).
pub record Filters : Type 0 where
  pub max_items : Json
  pub since : Json
  pub until : Json
  pub min_duration_s : Json
  pub max_duration_s : Json
  pub title_contains : Json

pub record Request : Type 0 where
  pub id : ℕ
  pub request_key : String
  pub tenant_id : ℕ
  pub submitted_by : String
  pub kind : Kind
  pub source_id : Option ℕ
  pub mode : Option Mode
  pub filters : Option Filters
  pub status : RequestStatus
  pub created_at : ℕ

pub record PullCursor : Type 0 where
  pub request_id : ℕ
  pub caller : String
  pub last_pulled_at : ℕ

pub record RoleProject : Type 0 where
  pub id : ℕ
  pub user_id : ℕ

-- An amount in the smallest unit kept; `debt n` is -(n + 1).
pub data Amount : Type 0 where
  credit debt : ℕ → Amount

pub record TranscriptionKey : Type 0 where
  pub id : ℕ
  pub tenant_id : ℕ
  pub user_id : ℕ
  pub provider : String
  pub secret_id : Option ℕ
  pub status : KeyStatus
  pub is_primary : Bool
  pub is_fallback : Bool
  pub workers_count : ℕ
  pub monthly_cap_usd : Option ℕ
  pub current_month_spend_usd : ℕ
  pub current_balance_usd : Option Amount
  pub last_balance_check_at : Option ℕ
  pub last_validated_at : Option ℕ
  pub created_at : ℕ

pub record TranscriptionWorker : Type 0 where
  pub id : ℕ
  pub worker_pool_id : String
  pub container_id : Option String
  pub container_name : Option String
  pub provider : String
  pub status : WorkerStatus
  pub last_activity_at : Option ℕ

-- user_wallets
pub record UserWallet : Type 0 where
  pub id : ℕ
  pub tenant_id : ℕ
  pub user_id : ℕ
  pub label : String
  pub api_token_encrypted : String
  pub api_url : String
  pub created_at : ℕ

-- user_secrets; the type is the provider of a key, or the platform of cookies with a suffix.
pub record UserSecret : Type 0 where
  pub id : ℕ
  pub tenant_id : ℕ
  pub user_id : ℕ
  pub secret_type : String
  pub label : String
  pub storage : SecretStorage
  pub value_encrypted : Option String
  pub wallet_id : Option ℕ
  pub wallet_path : Option String
  pub created_at : ℕ

-- user_credentials
pub record Credential : Type 0 where
  pub id : ℕ
  pub tenant_id : ℕ
  pub user_id : ℕ
  pub platform : String
  pub secret_id : Option ℕ
  pub status : CredentialStatus
  pub last_validated_at : Option ℕ
  pub expires_at : Option ℕ
  pub created_at : ℕ

-- The database, with what now() and gen_random_uuid() answer next.
pub record Db : Type 0 where
  pub now : ℕ
  pub next_id : ℕ
  pub sources : List Source
  pub source_items : List SourceItem
  pub scraping_jobs : List ScrapingJob
  pub transcription_jobs : List TranscriptionJob
  pub requests : List Request
  pub cursors : List PullCursor
  pub role_projects : List RoleProject
  pub credentials : List Credential
  pub transcription_keys : List TranscriptionKey
  pub transcription_workers : List TranscriptionWorker
  pub user_wallets : List UserWallet
  pub user_secrets : List UserSecret
