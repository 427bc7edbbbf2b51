-- ===== src/Transcription/ErrorClassifier.antt =====
-- worker/error_classifier.py, on the JSON that a provider answers.
pub mod Verdict
use roles.Prelude.{
  ℕ, String, ◌<>◌, Bool, true, false, not, ◌&&◌, ◌||◌, Option, none, some, ◌==◌, nat_eq, string_eq,
  leb, if◌then◌else◌,
}
use roles.Outside.{Outside}

-- The values of json.loads. `zero` is 0 and 0.0, `number` any other number; the keys of an object
-- are distinct.
mutual
  pub data Json : Type 0 where
    null zero number : Json
    bool : Bool → Json
    text : String → Json
    array : Items → Json
    object : Fields → Json

  pub data Items : Type 0 where
    nil : Items
    cons : Json → Items → Items

  pub data Fields : Type 0 where
    end : Fields
    field : String → Json → Fields → Fields

abbrev pub get : String → Fields → Option Json
get key end = none
get key (field k v fields) = if k == key then some v else get key fields

pub data ErrorCategory : Type 0 where
  invalid_key exhausted rate_limit transient unknown : ErrorCategory

-- The message is annotated as a text, and is what the body holds.
pub record ClassifiedError : Type 0 where
  pub category : ErrorCategory
  pub message : Json
  pub should_retry : Bool
  pub should_disable_key : Bool

-- A result, or an AttributeError.
pub data Reply (A : Type 0) : Type 0 where
  value : A → Reply A
  attribute_error : Reply A

infixl 5 ◌>>=◌
abbrev pub ◌>>=◌ : {A B : Type 0} → Reply A → (A → Reply B) → Reply B
value a >>= f = f a
attribute_error >>= f = attribute_error

-- bool(value)
abbrev pub is_true : Json → Bool
is_true null = false
is_true zero = false
is_true number = true
is_true (bool b) = b
is_true (text s) = not (s == "")
is_true (array nil) = false
is_true (array (cons x xs)) = true
is_true (object end) = false
is_true (object (field k v fields)) = true

-- `body.get("error", {}) if isinstance(body, dict) else {}`
unfoldable pub error_of : Json → Json
error_of (object fields) = elim (get "error" fields) [ none ↦ object end | some v ↦ v ]
error_of _ = object end

-- `err.get(key)`; None is null.
unfoldable pub get_of : String → Json → Reply Json
get_of key (object fields) = elim (get key fields) [ none ↦ value null | some v ↦ value v ]
get_of key _ = attribute_error

-- `(v or "").lower()`
unfoldable pub lowered : Outside → Json → Reply String
lowered o (text s) = value (o.lower s)
lowered o v = if is_true v then attribute_error else value (o.lower "")

unfoldable pub has_quota_words : Outside → String → Bool
has_quota_words o blob =
    (o.contains "quota" blob
      || o.contains "insufficient" blob
      || o.contains "billing" blob
      || o.contains "exceeded" blob)
    && not (o.contains "rate_limit" blob)

unfoldable pub looks_like_quota : Outside → Json → Reply Bool
unfolding error_of get_of lowered has_quota_words
looks_like_quota o body = do
  let err = error_of body
  code_value ← get_of "code" err
  code ← lowered o code_value
  message_value ← get_of "message" err
  message ← lowered o message_value
  value (has_quota_words o (code <> " " <> message))

-- `err_obj.get("message") or f"HTTP {status_code}"`
unfoldable pub message_or : (ℕ → String) → Json → ℕ → Json
message_or show message status = if is_true message then message else text ("HTTP " <> show status)

abbrev disabling : ErrorCategory → Json → ClassifiedError
disabling c m = record {
  category = c;
  message = m;
  should_retry = false;
  should_disable_key = true;
}

abbrev retrying : ErrorCategory → Json → ClassifiedError
retrying c m = record { category = c; message = m; should_retry = true; should_disable_key = false }

-- The branches on the status, with the code in lower case.
unfoldable pub by_status : Outside → ℕ → Json → String → Json → Reply ClassifiedError
by_status o status_code body code message =
    if status_code == 401 || o.contains "invalid_api_key" code
    then value (disabling ErrorCategory.invalid_key message)
    else if status_code == 402
    then value (disabling ErrorCategory.exhausted message)
    else if status_code == 429
    then (looks_like_quota o body >>= λ quota. value (
        if quota
        then disabling ErrorCategory.exhausted message
        else retrying ErrorCategory.rate_limit message))
    else if leb 500 status_code
    then value (retrying ErrorCategory.transient message)
    else value (retrying ErrorCategory.transient message)

unfoldable pub classify_error : Outside → ℕ → Json → Reply ClassifiedError
unfolding error_of get_of lowered message_or by_status
classify_error o status_code body = do
  let err_obj = error_of body
  code_value ← get_of "code" err_obj
  code ← lowered o code_value
  message ← get_of "message" err_obj
  by_status o status_code body code (message_or o.show_int message status_code)
