-- ===== src/Provider/Clients.antt =====
-- apps/provider-service: internal/infra/youtube/client.go and internal/infra/spotify/client.go, from the
-- answers of their HTTP calls on.
use Prim.Native.String.{◌++◌ as str_append}
use vibe_sync.Base.{
  ℕ, ltb, Bool, true, false, Option, none, some, String, str_eq, ℤ, pos, List, [], ◌∷◌,
  if◌then◌else◌,
}

pub record ResolvedMedia : Type 0 where
  pub external_ref : String
  pub title : String
  pub artist : String
  pub cover_url : String
  pub playable_url : String
  pub duration_ms : ℤ

-- What a client makes of a reference; `absent` is ErrNotFound.
pub data Lookup : Type 0 where
  resolved : ResolvedMedia → Lookup
  absent : Lookup
  broken : Lookup

-- The answer of an HTTP call whose body was read: its status and the decoded body, `none` where it
-- cannot be decoded.
pub record Answer (B : Type 0) : Type 0 where
  pub status : ℕ
  pub body : Option B

pub record Oembed : Type 0 where
  pub title : String
  pub author_name : String
  pub thumbnail_url : String

unfoldable pub watch_url : String → String
watch_url ref = str_append "https://www.youtube.com/watch?v=" ref

unfoldable pub track_url : String → String
track_url ref = str_append "https://open.spotify.com/track/" ref

abbrev pub is_status : ℕ → ℕ → Bool
is_status a b = if ltb a b then false else if ltb b a then false else true

abbrev pub video_of : String → Option Oembed → Lookup
video_of ref none = broken
video_of ref (some o) = resolved (record {
  external_ref = ref;
  title = o.title;
  artist = o.author_name;
  cover_url = o.thumbnail_url;
  playable_url = watch_url ref;
  duration_ms = pos 0;
})

-- `Resolve` of the YouTube client; no answer is an error of the call or of reading the body.
unfoldable pub resolve_video : String → Option (Answer Oembed) → Lookup
resolve_video ref none = broken
resolve_video ref (some a) =
    if is_status a.status 400
    then absent
    else if is_status a.status 401
    then absent
    else if is_status a.status 403
    then absent
    else if is_status a.status 404
    then absent
    else if is_status a.status 200
    then video_of ref a.body
    else broken

pub record Track : Type 0 where
  pub id : String
  pub name : String
  pub artists : List String
  pub images : List String
  pub duration_ms : ℤ

-- `artistName` and `coverURL`.
unfoldable pub first_or_empty : List String → String
first_or_empty [] = ""
first_or_empty (x ∷ xs) = x

abbrev pub track_media : Track → ResolvedMedia
track_media t = record {
  external_ref = t.id;
  title = t.name;
  artist = first_or_empty t.artists;
  cover_url = first_or_empty t.images;
  playable_url = track_url t.id;
  duration_ms = t.duration_ms;
}

abbrev pub track_of : Option Track → Lookup
track_of none = broken
track_of (some t) = if str_eq t.id "" then absent else resolved (track_media t)

unfoldable pub resolve_track : Option (Answer Track) → Lookup
resolve_track none = broken
resolve_track (some a) =
    if is_status a.status 404
    then absent
    else if is_status a.status 200
    then track_of a.body
    else broken
