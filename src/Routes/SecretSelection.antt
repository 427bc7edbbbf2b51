-- ===== src/Routes/SecretSelection.antt =====
-- backend/src/role_builder/routes/secret_selection.py, and cookies_platform of schemas/user_secrets.py
use Prim.Native.String.{len, slice}
use roles.Prelude.{
  ℕ, ◌-◌, String, Bool, ◌&&◌, ◌==◌, string_eq, leb, if◌then◌else◌, is_some, Option, some, none,
}
use roles.Outside.{Outside}
use roles.Db.Schema.{UserSecret}
use roles.Db.UserSecrets.{is_transcription_type, get_secret}
use roles.Secrets.Effects.{Reply, ok, raised, Cipher, Harpocrate, World}
use roles.Secrets.Store.{read_value}
use roles.Routes.Answers.{Answer, done, status, crashed, Handler}

abbrev pub cookies_platform : String → Option String
cookies_platform secret_type =
    let n = len secret_type in
    if leb 8 n && slice secret_type (n - 8) n == "-cookies"
    then some (slice secret_type 0 (n - 8))
    else none

-- expected_kind; the code raises ValueError for any other.
pub data SecretKind : Type 0 where
  transcription cookies : SecretKind

unfoldable pub is_of_kind : SecretKind → String → Bool
is_of_kind SecretKind.transcription t = is_transcription_type t
is_of_kind SecretKind.cookies t = is_some (cookies_platform t)

module _ (o : Outside) (H : Harpocrate) (c : Cipher) where
  abbrev pub with_read :
      UserSecret → Reply (Option String) × World H → Answer (UserSecret × String) × World H
  with_read s (raised e, w) = (crashed e, w)
  with_read s (ok none, w) = (status 400, w)
  with_read s (ok (some value), w) = (done (s, value), w)

  abbrev pub select_row : SecretKind → Option UserSecret → Handler H (UserSecret × String)
  select_row kind none w = (status 404, w)
  select_row kind (some s) w =
      if is_of_kind kind s.secret_type then with_read s (read_value o H c s w) else (status 400, w)

  unfoldable pub resolve_selected_secret : ℕ → ℕ → SecretKind → Handler H (UserSecret × String)
  unfolding is_of_kind
  resolve_selected_secret secret_id user_id kind w =
      select_row kind (get_secret secret_id user_id w.db) w
