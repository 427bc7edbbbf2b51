-- ===== src/Transcription/ErrorClassifier/Verdict.antt =====
-- What classify_error says of a key, and on which bodies it raises.
use roles.Prelude.{
  ℕ, ◌≡◌, refl, String, ◌<>◌, Bool, true, false, not, ◌||◌, ◌&&◌, arith, ◌==◌, nat_eq, none, some,
  List, [], ◌∷◌, any_where, Bool-cases, inl, inr, ◌⊎◌,
}
use roles.Outside.{Outside}
use roles.Transcription.ErrorClassifier.{
  Json, null, get, is_true, Reply, value, attribute_error, ErrorCategory, ClassifiedError, error_of,
  get_of, lowered, has_quota_words, looks_like_quota, message_or, by_status, classify_error, ◌>>=◌,
}

abbrev pub is_key_fault : ErrorCategory → Bool
is_key_fault ErrorCategory.invalid_key = true
is_key_fault ErrorCategory.exhausted = true
is_key_fault _ = false

abbrev pub is_object : Json → Bool
is_object (Json.object fields) = true
is_object _ = false

-- The value under a key of the error; null where there is none.
abbrev pub value_at : String → Json → Json
value_at key (Json.object fields) = elim (get key fields) [ none ↦ null | some v ↦ v ]
value_at key _ = null

-- A text, or a value that counts as false and stands for the empty text.
abbrev pub is_textual : Json → Bool
is_textual (Json.text s) = true
is_textual v = not (is_true v)

abbrev pub text_of : Outside → Json → String
text_of o (Json.text s) = o.lower s
text_of o v = o.lower ""

abbrev pub code_of : Outside → Json → String
code_of o body = text_of o (value_at "code" (error_of body))

abbrev pub message_of : Outside → Json → String
message_of o body = text_of o (value_at "message" (error_of body))

abbrev pub quota_words : List String
quota_words = "quota" ∷ "insufficient" ∷ "billing" ∷ "exceeded" ∷ []

abbrev pub names_quota : Outside → Json → Bool
names_quota o body =
    let blob = code_of o body <> " " <> message_of o body in
    any_where (λ word. o.contains word blob) quota_words && not (o.contains "rate_limit" blob)

-- The statuses and texts that tell of the key.
abbrev pub tells_of_key : Outside → ℕ → Json → Bool
tells_of_key o status body =
    status == 401
    || o.contains "invalid_api_key" (code_of o body)
    || status == 402
    || (status == 429 && names_quota o body)

-- The bodies that cannot be classified: the error is no object, its code is no text, or, where the
-- message is searched for a quota, the message is none.
abbrev pub is_malformed : Outside → ℕ → Json → Bool
is_malformed o status body =
    not (is_object (error_of body))
    || not (is_textual (value_at "code" (error_of body)))
    || (status == 429
        && not (o.contains "invalid_api_key" (code_of o body))
        && not (is_textual (value_at "message" (error_of body))))

abbrev pub Verdict : Outside → ℕ → Json → Reply ClassifiedError → Type 0
Verdict o status body Reply.attribute_error = is_malformed o status body ≡ true
Verdict o status body (Reply.value e) =
    (is_malformed o status body ≡ false)
    × (e.should_disable_key ≡ tells_of_key o status body)
    × (is_key_fault e.category ≡ e.should_disable_key)
    × (e.should_retry ≡ not e.should_disable_key)
    × (e.category ≡ ErrorCategory.rate_limit → status ≡ 429)

get_of_object :
    (key : String) (err : Json) → is_object err ≡ true → get_of key err ≡ value (value_at key err)
unfolding get_of
get_of_object key (Json.object fields) h = ground arith
get_of_object key _ h = absurd (cc h)

get_of_other :
    (key : String) (err : Json) → is_object err ≡ false → get_of key err ≡ attribute_error
unfolding get_of
get_of_other key (Json.object fields) h = absurd (cc h)
get_of_other key _ h = refl

lowered_textual : (o : Outside) (v : Json) → is_textual v ≡ true → lowered o v ≡ value (text_of o v)
unfolding lowered
lowered_textual o (Json.text s) h = refl
lowered_textual o v h = ground arith

lowered_other : (o : Outside) (v : Json) → is_textual v ≡ false → lowered o v ≡ attribute_error
unfolding lowered
lowered_other o (Json.text s) h = absurd (cc h)
lowered_other o v h = ground arith

has_quota_words_lem :
    (o : Outside) (blob : String)
    → has_quota_words o blob
      ≡ (any_where (λ word. o.contains word blob) quota_words && not (o.contains "rate_limit" blob))
unfolding has_quota_words
has_quota_words_lem o blob = ground arith

module _ (o : Outside) (body : Json) (object : is_object (error_of body) ≡ true)
    (code : is_textual (value_at "code" (error_of body)) ≡ true) where
  looks_like_quota_lem :
      is_textual (value_at "message" (error_of body)) ≡ true
      → looks_like_quota o body ≡ value (names_quota o body)
  unfolding looks_like_quota
  looks_like_quota_lem message =
      rw
        (
          get_of_object "code" (error_of body) object,
          get_of_object "message" (error_of body) object,
          lowered_textual o (value_at "code" (error_of body)) code,
          lowered_textual o (value_at "message" (error_of body)) message,
          has_quota_words_lem o (code_of o body <> " " <> message_of o body),
        )
        refl

  looks_like_quota_raises :
      is_textual (value_at "message" (error_of body)) ≡ false
      → looks_like_quota o body ≡ attribute_error
  unfolding looks_like_quota
  looks_like_quota_raises message =
      rw
        (
          get_of_object "code" (error_of body) object,
          get_of_object "message" (error_of body) object,
          lowered_textual o (value_at "code" (error_of body)) code,
          lowered_other o (value_at "message" (error_of body)) message,
        )
        refl

  by_status-Verdict :
      (status : ℕ) (message : Json)
      → Verdict o status body (by_status o status body (code_of o body) message)
  unfolding by_status
  by_status-Verdict status message =
      elim (Bool-cases (is_textual (value_at "message" (error_of body)))) [
        | inl m ↦ ground (arith, looks_like_quota_lem m, object, code)
        | inr m ↦ ground (arith, looks_like_quota_raises m, object, code)
      ]

Reply-cases : {A : Type 0} (r : Reply A) → ((a : A) × (r ≡ value a)) ⊎ (r ≡ attribute_error)
Reply-cases (Reply.value a) = inl (a, refl)
Reply-cases Reply.attribute_error = inr refl

by_status-message :
    (o : Outside) (status : ℕ) (body : Json) (code : String) (m : Json) (e : ClassifiedError)
    → by_status o status body code m ≡ value e
    → e.message ≡ m
unfolding by_status
by_status-message o status body code m e h = elim (Reply-cases (looks_like_quota o body)) [
  | inl (b, q) ↦ ground (arith, q)
  | inr q ↦ ground (arith, q)
]

-- The message of a classified error: the provider's, or the status in words.
pub classify_error-message :
    (o : Outside) (status : ℕ) (body : Json) (e : ClassifiedError)
    → classify_error o status body ≡ value e
    → e.message ≡ message_or o.show_int (value_at "message" (error_of body)) status
unfolding classify_error
classify_error-message o status body e h = elim (Bool-cases (is_object (error_of body))) [
  | inr n ↦ absurd (cc (rw (get_of_other "code" (error_of body) n, ◌>>=◌) at h))
  | inl n ↦ elim (Bool-cases (is_textual (value_at "code" (error_of body)))) [
    | inl c ↦ by_status-message o status body (code_of o body) _ e (
        rw
          (
            get_of_object "code" (error_of body) n,
            get_of_object "message" (error_of body) n,
            lowered_textual o (value_at "code" (error_of body)) c,
          )
          at h)
    | inr c ↦ absurd (
        cc (
          rw
            (
              get_of_object "code" (error_of body) n,
              lowered_other o (value_at "code" (error_of body)) c,
            )
            at h))
  ]
]

-- A body that cannot be classified (the error is no object, its code is a value that is true and no
-- text, or, for a 429 whose code does not hold invalid_api_key, its message is one) makes
-- classify_error raise, and no other does. For any other the key is disabled exactly when the category
-- is one of a key's faults, exactly when the call is not retried, and exactly when the answer is a 401,
-- a 402, a code that holds invalid_api_key, or a 429 whose code and message name a quota and no rate
-- limit; a rate limit is reported for a 429 alone.
pub classify_error-verdict :
    (o : Outside) (status : ℕ) (body : Json) → Verdict o status body (classify_error o status body)
unfolding classify_error
classify_error-verdict o status body = elim (Bool-cases (is_object (error_of body))) [
  | inr e ↦ rw (get_of_other "code" (error_of body) e, e) refl
  | inl e ↦ elim (Bool-cases (is_textual (value_at "code" (error_of body)))) [
    | inl c ↦
        rw
          (
            get_of_object "code" (error_of body) e,
            get_of_object "message" (error_of body) e,
            lowered_textual o (value_at "code" (error_of body)) c,
          )
          (by_status-Verdict o body e c status _)
    | inr c ↦
        rw
          (
            get_of_object "code" (error_of body) e,
            lowered_other o (value_at "code" (error_of body)) c,
          )
          (ground arith)
  ]
]
