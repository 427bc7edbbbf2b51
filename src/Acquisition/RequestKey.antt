-- ===== src/Acquisition/RequestKey.antt =====
-- services/acquisition/request_key.py
use roles.Prelude.{
  String, ◌<>◌, Bool, Option, none, some, List, ◌==◌, string_eq, if◌then◌else◌, get_last?,
  find_where,
}
use roles.Acquisition.Errors.{Code, Result, ok, err}

-- What str and re do to the texts.
pub record Texts : Type 0 where
  -- re.sub(r"[^a-z0-9]+", "-", value.lower()).strip("-")
  pub slugify : String → String
  -- text[:30].rstrip("-")
  pub cut_hint : String → String
  -- the segments of urlparse(url).path.strip("/").split("/") that are not empty
  pub segments : String → List String
  -- text.startswith("@") and text.lstrip("@")
  pub is_handle : String → Bool
  pub strip_at : String → String

unfoldable pub prefix_of : String → Option String
prefix_of platform =
    if platform == "youtube"
    then some "yt"
    else if platform == "instagram"
    then some "ig"
    else if platform == "tiktok"
    then some "tt"
    else if platform == "upload"
    then some "up"
    else none

abbrev or_src : String → String
or_src text = if text == "" then "src" else text

abbrev last_or_empty : Option String → String
last_or_empty none = ""
last_or_empty (some s) = s

-- The first handle, or the last segment, or nothing.
abbrev raw_hint : Option String → Option String → String
raw_hint (some handle) last = handle
raw_hint none last = last_or_empty last

unfoldable pub hint_from_url : Texts → String → String
hint_from_url t url = or_src (
    t.slugify (
      t.strip_at (raw_hint (find_where t.is_handle (t.segments url)) (get_last? (t.segments url)))))

unfoldable pub hint_of : Texts → String → Option String → String
unfolding hint_from_url
hint_of t url none = hint_from_url t url
hint_of t url (some note) = if note == "" then hint_from_url t url else t.slugify note

-- `today` is today.isoformat().
unfoldable pub build_request_key_base :
    Texts → String → String → Option String → String → Result String
build_request_key_base t platform url note today = elim (prefix_of platform) [
  | none ↦ err Code.value_error
  | some prefix ↦ ok (prefix <> "-" <> or_src (t.cut_hint (hint_of t url note)) <> "-" <> today)
]
