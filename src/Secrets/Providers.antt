-- ===== src/Secrets/Providers.antt =====
-- backend/src/role_builder/services/transcription_validator.py and services/provider_keys.py. An
-- amount counts the smallest unit kept.
use roles.Prelude.{
  ℕ, ◌+◌, ◌-◌, ◌<>◌, String, Bool, true, false, not, ◌&&◌, ◌||◌, ◌==◌, nat_eq, string_eq, ltb, leb,
  if◌then◌else◌, Option, some, none, List, [], ◌∷◌,
}
use roles.Outside.{Outside}
use roles.Db.Schema.{Amount, TranscriptionKey}
use roles.Secrets.Effects.{Fault, Reply, ok, raised, Cipher, Harpocrate, World}
use roles.Secrets.Store.{read_secret_by_id}

abbrev pub add_amount : Amount → Amount → Amount
add_amount (Amount.credit a) (Amount.credit b) = Amount.credit (a + b)
add_amount (Amount.debt a) (Amount.debt b) = Amount.debt (a + b + 1)
add_amount (Amount.credit a) (Amount.debt b) =
    if ltb b a then Amount.credit (a - b - 1) else Amount.debt (b - a)
add_amount (Amount.debt a) (Amount.credit b) =
    if ltb a b then Amount.credit (b - a - 1) else Amount.debt (a - b)

-- What a GET comes to: httpx.TimeoutException, another httpx.HTTPError with its text, or an answer.
pub data Response : Type 0 where
  timeout : Response
  http_error : String → Response
  answer : ℕ → String → Response

-- An entry of `balances`: its unit in lower case, and `float` of its amount.
pub record BalanceEntry : Type 0 where
  pub units : String
  pub amount : Reply Amount

-- The providers' web services, from the address and the Authorization header, and the JSON of their
-- bodies. `value_error` is a body that is not JSON; any other exception is one that the code does
-- not catch.
pub record Providers : Type 0 where
  pub get : String → String → Response
  -- project_id of each element of `projects`
  pub projects : String → Reply (List (Option String))
  pub balances : String → Reply (List BalanceEntry)
  pub http_text : String → ℕ → String
  pub error_text : String → String → String
  -- the settings' key of a provider, "" where there is none
  pub machine_key : String → String

-- PROVIDER_CONFIG
pub record Config : Type 0 where
  pub url : String
  pub scheme : String

abbrev pub provider_config : String → Option Config
provider_config p =
    if p == "openai-whisper"
    then some (record { url = "https://api.openai.com/v1/models"; scheme = "Bearer " })
    else if p == "deepgram"
    then some (record { url = "https://api.deepgram.com/v1/projects"; scheme = "Token " })
    else if p == "assemblyai"
    then some (record { url = "https://api.assemblyai.com/v2/transcript?limit=1"; scheme = "" })
    else if p == "speechmatics"
    then some (record { url = "https://asr.api.speechmatics.com/v2/jobs"; scheme = "Bearer " })
    else none

-- 200 <= status < 300
abbrev pub is_success : ℕ → Bool
is_success status = leb 200 status && ltb status 300

-- The balance so far; `none` until an entry in dollars is found.
abbrev pub plus : Option Amount → Amount → Option Amount
plus none a = some (add_amount (Amount.credit 0) a)
plus (some total) a = some (add_amount total a)

abbrev pub then_total : Option Amount → Reply Amount → Reply (Option Amount)
then_total total (ok a) = ok (plus total a)
then_total total (raised e) = raised e

abbrev pub sum_entries : List BalanceEntry → Reply (Option Amount) → Reply (Option Amount)
sum_entries [] total = total
sum_entries (b ∷ bs) (raised e) = raised e
sum_entries (b ∷ bs) (ok total) =
    sum_entries bs (if b.units == "usd" then then_total total b.amount else ok total)

-- except (httpx.HTTPError, ValueError): None
abbrev pub or_none : Reply (Option Amount) → Reply (Option Amount)
or_none (raised Fault.value_error) = ok none
or_none r = r

module _ (p : Providers) where
  abbrev pub sum_body : Reply (List BalanceEntry) → Option Amount → Reply (Option Amount)
  sum_body (raised e) total = raised e
  sum_body (ok entries) total = sum_entries entries (ok total)

  -- An httpx.HTTPError ends the loop, and the call with None, as a ValueError does.
  abbrev pub sum_project : Response → Option Amount → Reply (Option Amount)
  sum_project Response.timeout total = raised Fault.value_error
  sum_project (Response.http_error text) total = raised Fault.value_error
  sum_project (Response.answer status body) total =
      if is_success status then sum_body (p.balances body) total else ok total

  abbrev pub balances_of : String → Option String → Option Amount → Reply (Option Amount)
  balances_of header none total = ok total
  balances_of header (some id) total =
      if id == ""
      then ok total
      else sum_project (p.get ("https://api.deepgram.com/v1/projects/" <> id <> "/balances") header)
          total

  abbrev pub sum_projects :
      String → List (Option String) → Reply (Option Amount) → Reply (Option Amount)
  sum_projects header [] total = total
  sum_projects header (id ∷ ids) (raised e) = raised e
  sum_projects header (id ∷ ids) (ok total) = sum_projects header ids (balances_of header id total)

  abbrev pub over_projects : String → Reply (List (Option String)) → Reply (Option Amount)
  over_projects header (raised e) = raised e
  over_projects header (ok ids) = sum_projects header ids (ok none)

  abbrev pub total_of : String → Response → Reply (Option Amount)
  total_of header Response.timeout = ok none
  total_of header (Response.http_error text) = ok none
  total_of header (Response.answer status body) =
      if is_success status then or_none (over_projects header (p.projects body)) else ok none

  unfoldable pub fetch_balance : String → String → Reply (Option Amount)
  fetch_balance provider api_key =
      if provider == "deepgram"
      then total_of ("Token " <> api_key)
          (p.get "https://api.deepgram.com/v1/projects" ("Token " <> api_key))
      else ok none

  -- The dictionary that validate_transcription_key returns.
  pub record Verdict : Type 0 where
    pub valid : Bool
    pub error : Option String
    pub balance_usd : Option Amount

  abbrev pub refused : String → Verdict
  refused error = record { valid = false; error = some error; balance_usd = none }

  abbrev pub accepted : Reply (Option Amount) → Reply Verdict
  accepted (raised e) = raised e
  accepted (ok balance) = ok (record { valid = true; error = none; balance_usd = balance })

  abbrev pub judged : String → String → Response → Reply Verdict
  judged provider api_key Response.timeout = ok (refused "timeout")
  judged provider api_key (Response.http_error text) = ok (refused (p.error_text "http error" text))
  judged provider api_key (Response.answer status body) =
      if status == 401 || status == 403
      then ok (refused (p.http_text "auth failed" status))
      else if leb 500 status
      then ok (refused (p.http_text "provider error" status))
      else if not (is_success status)
      then ok (refused (p.http_text "unexpected" status))
      else if provider == "deepgram"
      then accepted (fetch_balance provider api_key)
      else accepted (ok none)

  abbrev pub with_config : String → String → Option Config → Reply Verdict
  with_config provider api_key none = ok (refused (p.error_text "unsupported provider" provider))
  with_config provider api_key (some config) =
      judged provider api_key (p.get config.url (config.scheme <> api_key))

  unfoldable pub validate_transcription_key : String → String → Reply Verdict
  unfolding fetch_balance
  validate_transcription_key provider api_key =
      with_config provider api_key (provider_config provider)

module _ (o : Outside) (H : Harpocrate) (c : Cipher) (p : Providers) where
  -- `if value: return value`, then the settings' key
  abbrev pub or_machine_key : String → Reply (Option String) × World H → Reply String × World H
  or_machine_key provider (raised e, w) = (raised e, w)
  or_machine_key provider (ok none, w) = (ok (p.machine_key provider), w)
  or_machine_key provider (ok (some value), w) =
      (ok (if value == "" then p.machine_key provider else value), w)

  abbrev pub key_value : Option ℕ → ℕ → World H → Reply (Option String) × World H
  key_value none user_id w = (ok none, w)
  key_value (some secret_id) user_id w = read_secret_by_id o H c secret_id user_id w

  unfoldable pub resolve_provider_api_key :
      ℕ → TranscriptionKey → String → World H → Reply String × World H
  resolve_provider_api_key user_id key provider w =
      or_machine_key provider (key_value key.secret_id user_id w)
