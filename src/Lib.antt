-- ===== src/Lib.antt =====
-- The acquisition pipeline of the Role Builder backend: a request is submitted, its source is
-- discovered, items are selected and downloaded, their audio is transcribed, and the transcripts are
-- deposited and pulled by the caller. The users' own part is modelled too: their secrets, in the
-- database or in a wallet, and the keys and credentials that refer to them.
--
-- Parts and files. Paths are from the root of the repository; RB is backend/src/role_builder.
--   Db.Schema            the rows of the tables (migrations/0001, 0005 to 0009) and the record Db of all
--                        tables, with the answers of now() and gen_random_uuid()
--   Db.Sources, Db.SourceItems, Db.ScrapingJobs, Db.TranscriptionJobs, Db.Requests, Db.DepositQueue,
--   Db.PullCursors, Db.TranscriptionKeys, Db.Credentials
--                        RB/db_helpers, one function for each statement, under its Python name; the
--                        statements of docker/transcription-worker/worker/db.py stand in
--                        Db.TranscriptionJobs
--   Acquisition.*        RB/services/acquisition, one module for each file: filters, selection, status and
--                        status_shape, corpus, auto_select, admin, request_creation, discovery,
--                        submission, platform_detection, request_key
--   Acquisition.Upload.* RB/services/acquisition/upload: intake and media_types, transcription_entry,
--                        finalize and cleanup, extraction_worker; Db.UploadSlots has their statements
--                        (RB/db_helpers/source_items_upload.py)
--   Pipeline.EventHandlers  RB/services/event_handlers.py
--   Pipeline.Orchestrator   RB/services/scraper_orchestrator.py; its child Loop is run_loop's semaphore
--   Pipeline.DepositWorker  RB/services/deposit/worker.py
--   Pipeline.WorkerManager  RB/services/worker_manager.py and credit_basculer.py
--   Transcription.ErrorClassifier, Transcription.Worker
--                        docker/transcription-worker/worker/error_classifier.py and main.py
--   Acquisition.Discovery.Pagination.walk, Db.ScrapingJobs.Restart.claims  a caller that follows the pages,
--                        and claims in a row: not code, but the calls that the theorems are about
--   Db.UserWallets, Db.UserSecrets  their tables, with the foreign keys that a deletion can violate
--   Secrets.Effects      exceptions as values, the wallets' vault, Fernet, and the World of the tables, the
--                        clients in the cache and the vault
--   Secrets.Store        RB/services/secret_store.py, SecretStore, with its lemmas in Clients,
--                        VaultWrites, StoreDb and CreationDb
--   Secrets.Providers    RB/services/transcription_validator.py and provider_keys.py
--   Secrets.CreditMonitor  RB/services/credit_monitor.py
--   Cookies.*            RB/services/credentials_validator.py, on texts as lists of code points
--   Routes.*             RB/routes: secret_selection, user_secrets, wallets, transcription_keys and
--                        credentials, each handler with its statuses; Routes.Deletion and
--                        Routes.OwnReferences hold theorems on them
--   Startup.Migrations, Startup.Relay  RB/migrations.py and RB/services/ws_relay.py
--   Outside              what comes from PostgreSQL and Python: ILIKE, dates, int(), json.dumps, ...
--   Prelude.*            tests, lists, tables (SELECT, UPDATE, count on lists of rows), ORDER BY
--   Samples, Examples    a small database with what surrounds it, and the theorems at its rows
-- The child modules of a component hold its theorems.
--
-- State and calls. A statement is a function from Db to Db, with its answer beside it, and a
-- service threads the database through the statements in the order of the source. An
-- AcquisitionError is a value of Acquisition.Errors.Result; a write that precedes an error stays.
-- Each function runs by itself: a statement is atomic and, where no parameter says that it raises,
-- succeeds; and between two calls another component may step, which Acquisition.Corpus.Delivery
-- allows and Acquisition.Upload.Finalize states for two calls (check_upload and finish are the two
-- halves of finalize_upload).
--
-- Parameters. The scraper's container (Pipeline.Orchestrator.Container) is the list of its events, whether
-- it fails after them and whether its environment can be built; the depositor and the object storage
-- (Pipeline.DepositWorker.World) answer each attempt as they like; the attempt of a transcription
-- (Transcription.Worker.World) is any outcome, an HTTP error with any JSON body; Secrets.CreditMonitor.Writes
-- says which statements on a key raise; ScraperOrchestrator's texts of errors are given.
-- Submission.Surroundings, Upload.Intake.Platform, Upload.Finalize.Storage, Upload.Extraction.Extractor and
-- WorkerManager.Docker are parameters of the same kind. So are the SDK of the wallets
-- (Secrets.Effects.Harpocrate, a copy of another project; IsVault says that a value that was put is the
-- value that is read), Fernet (Cipher, with IsCipher), the providers' web services (Providers), and int()
-- and base64 (Cookies.Validator.Readers), PostgreSQL under the migrations (Startup.Migrations.Server) and
-- json.loads (Startup.Relay.Payloads). Samples.Vault has a vault and a cipher for which the laws hold.
--
-- Bounds. Pipeline.DepositWorker.drain has fuel, a round for each unit; as many units as claimable items
-- are enough. The rounds of a deposit and of request keys have the source's own limits
-- (max_attempts, 5). Ids and times are natural numbers; PostgreSQL's integers do not overflow here.
--
-- Not modelled: the routes of sources and the glue to MCP, Docker, MinIO and the transcription calls of
-- the providers; authentication and the rest of the start-up; the SDK of the wallets; what is only logged.
pub mod Acquisition
pub mod Cookies
pub mod Db
pub mod Examples
pub mod Outside
pub mod Pipeline
pub mod Prelude
pub mod Routes
pub mod Samples
pub mod Secrets
pub mod Startup
pub mod Transcription
