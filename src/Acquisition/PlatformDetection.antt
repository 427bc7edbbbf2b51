-- ===== src/Acquisition/PlatformDetection.antt =====
-- services/acquisition/platform_detection.py
use roles.Prelude.{
  String, ◌<>◌, Bool, false, not, ◌&&◌, ◌||◌, Option, none, some, ◌==◌, string_eq, if◌then◌else◌,
}
use roles.Acquisition.Errors.{Code, Result, ok, err}

-- What urllib.parse.urlparse and str answer of a URL.
pub record Urls : Type 0 where
  pub netloc : String → String
  -- the host name, in lower case, without port and user; `none` is None
  pub hostname : String → Option String
  pub path : String → String
  pub lower : String → String
  -- `needle in text` and `text.endswith(suffix)`, the text last
  pub contains : String → String → Bool
  pub ends_with : String → String → Bool
  -- url.split("/", 1)[0]
  pub first_segment : String → String

unfoldable pub is_host_of : Urls → String → String → Bool
is_host_of u host domain = host == domain || u.ends_with ("." <> domain) host

-- The loop over _DOMAIN_SUFFIXES, in its order.
unfoldable pub match_host : Urls → String → Option String
unfolding is_host_of
match_host u host =
    let h = u.lower host in
    if is_host_of u h "youtube.com" || is_host_of u h "youtu.be"
    then some "youtube"
    else if is_host_of u h "instagram.com"
    then some "instagram"
    else if is_host_of u h "tiktok.com"
    then some "tiktok"
    else none

unfoldable pub is_supported_platform : String → Bool
is_supported_platform p = p == "youtube" || p == "instagram" || p == "tiktok"

abbrev or_unsupported : Option String → Result String
or_unsupported none = err Code.unsupported_platform
or_unsupported (some p) = ok p

-- `hostname or netloc`
abbrev host_or : Option String → String → String
host_or none netloc = netloc
host_or (some h) netloc = if h == "" then netloc else h

-- A URL without a scheme whose first segment looks like a host.
unfoldable pub with_slashes : Urls → String → String
with_slashes u url =
    if not (u.contains "//" url) && u.contains "." (u.first_segment url) then "//" <> url else url

unfoldable pub deduce_from_url : Urls → String → Result String
deduce_from_url u url =
    if u.netloc url == ""
    then err Code.invalid_url
    else or_unsupported (match_host u (host_or (u.hostname url) (u.netloc url)))

unfoldable pub deduce_platform : Urls → String → Option String → Result String
unfolding deduce_from_url
deduce_platform u url (some hint) =
    if is_supported_platform hint then ok hint else err Code.unsupported_platform
deduce_platform u url none = deduce_from_url u (with_slashes u url)

unfoldable pub has_video_marker : Urls → String → String → Bool
has_video_marker u platform path =
    if platform == "youtube"
    then u.contains "watch" path
    else if platform == "tiktok"
    then u.contains "/video/" path
    else if platform == "instagram"
    then u.contains "/p/" path || u.contains "/reel/" path
    else false

unfoldable pub infer_source_type : Urls → String → String → String
infer_source_type u platform url =
    if has_video_marker u platform (u.path url)
    then "single"
    else if u.contains "playlist" (u.path url) || u.contains "list=" url
    then "playlist"
    else "channel"
