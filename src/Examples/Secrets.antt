-- ===== src/Examples/Secrets.antt =====
-- The theorems on secrets, cookies and their routes, at the rows of Samples.Vault.
use roles.Prelude.{
  ℕ, String, Bool, true, false, not, ◌==◌, nat_eq, some, List, [], ◌∷◌, ◌++◌, ◌≡◌, refl, All,
  Bool-cases, inl, inr,
}
use roles.Db.Schema.{Amount}
use roles.Db.TranscriptionKeys.{list_active_keys_for_balance_polling}
use roles.Db.UserSecrets.{get_secret, insert_secret, count_service_references}
use roles.Secrets.Providers.{fetch_balance}
use roles.Db.UserWallets.{get_wallet}
use roles.Secrets.Effects.{Fault, ok, raised}
use roles.Secrets.Store.{create_secret, read_value, try_delete_in_wallet, drawn, read_secret_by_id}
use roles.Secrets.RoundTrip.{IsCreated, create_secret-IsCreated}
use roles.Secrets.Strangers.{create_then_read_stranger}
use roles.Secrets.CreditMonitor.{Writes, poll_all_balances}
use roles.Cookies.Texts.{Text, codes, all_of, is_break}
use roles.Cookies.Texts.Fields.{Lacks}
use roles.Cookies.Parser.{parsed, parse_netscape_cookies}
use roles.Cookies.Parser.RoundTrip.{
  Fields, FileLine, print_file, print_fields, HasFields, IsPrintable, cookie_from,
  parse_netscape_cookies-print_file,
}
use roles.Cookies.Validator.{validate_cookies}
use roles.Cookies.Validator.Expiry.{IsJudged, validate_cookies-IsJudged}
use roles.Routes.UserSecrets.{CreateSecretRequest, delete_secret_endpoint}
use roles.Routes.Answers.{status}
use roles.Routes.Deletion.{IsDeletion, delete_secret_endpoint-IsDeletion}
use roles.Routes.OwnReferences.{OwnReferences}
use roles.Routes.OwnReferences.Calls.{Call, Reach, handle, Reach-OwnReferences}
use roles.Samples.{outside}
use roles.Samples.Vault.{
  vault, vault-IsVault, cipher, cipher-IsCipher, world, value_for, foreign_secret, providers,
  readers, user,
}

create_secret_example :
    IsCreated outside vault cipher
      (value_for 7)
      world
      (create_secret outside vault cipher (value_for 7) world)
create_secret_example =
    create_secret-IsCreated outside vault cipher vault-IsVault cipher-IsCipher (value_for 7) world
      refl

-- The secret of the example is stored, and read back.
create_secret_answers : (create_secret outside vault cipher (value_for 7) world).0 ≡ ok 50
unfolding create_secret get_wallet insert_secret
create_secret_answers = refl

stranger_example :
    (create_secret outside vault cipher (value_for 8) world
      ≡ (raised Fault.unknown_wallet, drawn outside vault cipher world))
    × (read_value outside vault cipher foreign_secret world ≡ (raised Fault.unknown_wallet, world))
    × (try_delete_in_wallet outside vault cipher foreign_secret world ≡ world)
stranger_example =
    create_then_read_stranger outside vault cipher 81 (value_for 8) foreign_secret world refl refl
      refl (refl, refl)

-- The key of the example cannot be marked as exhausted.
abbrev writes : Writes
writes = record { update_raises = λ id. false; mark_raises = λ id. true }

-- The key of the example has no dollar left: it counts as updated and as an error.
poll_all_balances_counts :
    (poll_all_balances outside vault cipher providers writes world).0
    ≡ record { polled = 1; updated = 1; exhausted = 0; errors = 1 }
unfolding poll_all_balances list_active_keys_for_balance_polling read_secret_by_id get_secret
    fetch_balance
poll_all_balances_counts = refl

abbrev new_secret : CreateSecretRequest
new_secret = record {
  secret_type = "deepgram";
  label = "new";
  value = "secret";
  wallet_id = some 81;
}

abbrev session : Fields
session = record {
  domain = codes ".youtube.com";
  flag = codes "TRUE";
  path = codes "/";
  secure = codes "FALSE";
  expiry = codes "1900000000";
  name = codes "SID";
  value = codes "abc";
  number = Amount.credit 1900000000;
}

none_of : (p : ℕ → Bool) (t : Text) → all_of (λ c. not (p c)) t ≡ true → All (λ c. p c ≡ false) t
none_of p [] h = tt
none_of p (c ∷ cs) h = elim (Bool-cases (p c)) [
  | inl e ↦ cc (rw e at h)
  | inr e ↦ (e, none_of p cs (rw e at h))
]

abbrev no_tab : (t : Text) → all_of (λ c. not (c == 9)) t ≡ true → Lacks 9 t
no_tab t h = none_of (λ c. c == 9) t h

session-HasFields : HasFields readers.int session
session-HasFields = (all_seven, refl)
  where
    all_seven : All (Lacks 9) (
        session.domain ∷ session.flag ∷ session.path ∷ session.secure ∷ session.expiry
        ∷ session.name ∷ session.value ∷ [])
    all_seven = (
      no_tab session.domain refl,
      (
        no_tab session.flag refl,
        (
          no_tab session.path refl,
          (
            no_tab session.secure refl,
            (
              no_tab session.expiry refl,
              (no_tab session.name refl, (no_tab session.value refl, tt)),
            ),
          ),
        ),
      ),
    )

abbrev cookies_file : List FileLine
cookies_file =
    FileLine.comment (codes " Netscape")
    ∷ FileLine.blank []
    ∷ FileLine.plain session
    ∷ FileLine.http_only session
    ∷ []

cookies_file-IsPrintable : All (IsPrintable readers.int) cookies_file
cookies_file-IsPrintable = (
  (none_of is_break (codes "# Netscape") refl, refl),
  (
    (tt, refl),
    (
      (none_of is_break (print_fields session) refl, session-HasFields, refl),
      ((none_of is_break (codes "#HttpOnly_" ++ print_fields session) refl, session-HasFields), tt),
    ),
  ),
)

parse_netscape_cookies_example :
    parse_netscape_cookies readers.int (print_file cookies_file)
    ≡ parsed (cookie_from session ∷ cookie_from session ∷ [])
parse_netscape_cookies_example =
    parse_netscape_cookies-print_file readers.int cookies_file cookies_file-IsPrintable

abbrev cookies_text : String
cookies_text = ".youtube.com\tTRUE\t/\tFALSE\t1900000000\tSID\tabc\n"

reads_cookies_text :
    parse_netscape_cookies readers.int (codes cookies_text) ≡ parsed (cookie_from session ∷ [])
unfolding parse_netscape_cookies
reads_cookies_text = refl

validate_cookies_example :
    IsJudged
      (codes "SID" ∷ codes "SAPISID" ∷ codes "__Secure-3PSID" ∷ [])
      (cookie_from session ∷ [])
      (validate_cookies readers "youtube" cookies_text)
validate_cookies_example =
    validate_cookies-IsJudged readers "youtube" cookies_text
      (codes "SID" ∷ codes "SAPISID" ∷ codes "__Secure-3PSID" ∷ []) (codes cookies_text)
      (cookie_from session ∷ []) refl refl reads_cookies_text

-- The key of the example refers to the secret.
delete_secret_example :
    IsDeletion outside vault cipher 62 user.user_id world
      (delete_secret_endpoint outside vault cipher 62 user world)
delete_secret_example = delete_secret_endpoint-IsDeletion outside vault cipher 62 user world

delete_secret_answers : (delete_secret_endpoint outside vault cipher 62 user world).0 ≡ status 409
unfolding delete_secret_endpoint get_secret count_service_references
delete_secret_answers = refl

-- Another secret is made, and the first, which a key refers to, is to go.
Reach_example :
    OwnReferences
      (handle outside vault cipher providers readers (Call.delete_secret 62) user (
        handle outside vault cipher providers readers
          (Call.create_secret new_secret)
          user
          world)).db
Reach_example =
    Reach-OwnReferences outside vault cipher providers readers
      (Reach.step (Call.delete_secret 62) user
        (Reach.step (Call.create_secret new_secret) user Reach.here))
      ((refl, tt), tt)
