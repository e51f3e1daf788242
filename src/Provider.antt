-- ===== src/Provider.antt =====
-- apps/provider-service: internal/app/handlers.go, and the table of
-- internal/infra/postgres/resolution_cache_repo.go.
pub mod Clients
pub mod Resolved
use Prim.Native.String.{◌++◌ as str_append}
use vibe_sync.Base.{
  ℕ, ltb, ◌&&◌, Bool, true, false, Option, none, some, String, str_eq, ℤ, pos, List, [], ◌∷◌, map,
  length, if◌then◌else◌,
}
use vibe_sync.Provider.Clients.{
  ResolvedMedia, Lookup, Answer, Oembed, watch_url, track_url, is_status, video_of, resolve_video,
  Track, first_or_empty, track_media, track_of, resolve_track, resolved, absent, broken,
}

pub data ProviderName : Type 0 where
  unspecified spotify youtube : ProviderName

pub data ProviderError : Type 0 where
  missing_query missing_external_ref invalid_provider provider_disabled : ProviderError
  cache_read_failed user_token_failed media_missing resolve_failed cache_write_failed :
      ProviderError
  search_unsupported search_failed : ProviderError

pub data Result {ℓ} (A : Type ℓ) : Type ℓ where
  ok : A → Result A
  err : ProviderError → Result A

-- A row of resolution_cache; the playable URL is not stored.
pub record CachedMedia : Type 0 where
  pub provider : String
  pub external_ref : String
  pub title : String
  pub artist : String
  pub cover_url : String
  pub duration_ms : ℤ

abbrev pub is_row : String → String → CachedMedia → Bool
is_row provider ref m = str_eq m.provider provider && str_eq m.external_ref ref

unfoldable pub cache_get : String → String → List CachedMedia → Option ResolvedMedia
cache_get provider ref [] = none
cache_get provider ref (m ∷ ms) =
    if is_row provider ref m
    then some (record {
      external_ref = ref;
      title = m.title;
      artist = m.artist;
      cover_url = m.cover_url;
      playable_url = "";
      duration_ms = m.duration_ms;
    })
    else cache_get provider ref ms

abbrev pub media_row : String → ResolvedMedia → CachedMedia
media_row provider m = record {
  provider = provider;
  external_ref = m.external_ref;
  title = m.title;
  artist = m.artist;
  cover_url = m.cover_url;
  duration_ms = m.duration_ms;
}

unfoldable pub cache_upsert : String → ResolvedMedia → List CachedMedia → List CachedMedia
cache_upsert provider m [] = media_row provider m ∷ []
cache_upsert provider m (o ∷ os) =
    let after = cache_upsert provider m os in
    if is_row provider m.external_ref o then media_row provider m ∷ os else o ∷ after

unfoldable pub provider_slug : ProviderName → Option String
provider_slug unspecified = none
provider_slug spotify = some "spotify"
provider_slug youtube = some "youtube"

abbrev pub canonical_url : ProviderName → String → String
canonical_url unspecified ref = ""
canonical_url spotify ref = track_url ref
canonical_url youtube ref = watch_url ref

unfoldable pub fill_playable_url : ProviderName → ResolvedMedia → ResolvedMedia
fill_playable_url p m =
    if str_eq m.playable_url ""
    then record m { playable_url = canonical_url p m.external_ref }
    else m

-- What a request meets: the clients that are enabled, as their HTTP calls answer it, the token of
-- the user if the request has one, and whether the table can be read and written.
pub record Surroundings : Type 0 where
  pub spotify_call : Option (String → String → Option (Answer Track))
  pub youtube_call : Option (String → Option (Answer Oembed))
  pub user_id : String
  pub user_token : String → Option String
  pub reads : Bool
  pub writes : Bool

abbrev pub with_token : Option String → (String → Option (Answer Track)) → Result Lookup
with_token none call = err user_token_failed
with_token (some token) call = ok (resolve_track (call token))

-- An empty token has the client take its own, which the call stands for.
unfoldable pub ask_provider : ProviderName → String → String → Surroundings → Result Lookup
ask_provider unspecified slug ref s = ok broken
ask_provider spotify slug ref s = elim s.spotify_call [
  | none ↦ err provider_disabled
  | some call ↦ with_token (if str_eq s.user_id "" then some "" else s.user_token slug) (call ref)
]
ask_provider youtube slug ref s = elim s.youtube_call [
  | none ↦ err provider_disabled
  | some call ↦ ok (resolve_video ref (call ref))
]

abbrev pub store_resolved :
    ProviderName
    → String
    → Bool
    → Result Lookup
    → List CachedMedia
    → Result ResolvedMedia × List CachedMedia
store_resolved p slug writes (err e) table = (err e, table)
store_resolved p slug writes (ok absent) table = (err media_missing, table)
store_resolved p slug writes (ok broken) table = (err resolve_failed, table)
store_resolved p slug writes (ok (resolved m)) table =
    if writes
    then (ok (fill_playable_url p m), cache_upsert slug m table)
    else (err cache_write_failed, table)

abbrev pub hit_or_ask :
    ProviderName
    → String
    → String
    → Surroundings
    → Option ResolvedMedia
    → List CachedMedia
    → Result ResolvedMedia × List CachedMedia
hit_or_ask p slug ref s (some m) table = (ok (fill_playable_url p m), table)
hit_or_ask p slug ref s none table =
    store_resolved p slug s.writes (ask_provider p slug ref s) table

abbrev pub resolve_slug :
    Option String
    → ProviderName
    → String
    → Surroundings
    → List CachedMedia
    → Result ResolvedMedia × List CachedMedia
resolve_slug none p ref s table = (err invalid_provider, table)
resolve_slug (some slug) p ref s table =
    if s.reads
    then hit_or_ask p slug ref s (cache_get slug ref table) table
    else (err cache_read_failed, table)

unfoldable pub resolve :
    ProviderName
    → String
    → Surroundings
    → List CachedMedia
    → Result ResolvedMedia × List CachedMedia
resolve p ref s table =
    if str_eq ref ""
    then (err missing_external_ref, table)
    else resolve_slug (provider_slug p) p ref s table

-- `l` is the limit of the page, if the request has one.
unfoldable pub search_limit : Option ℕ → ℕ
search_limit none = 20
search_limit (some l) =
    let wanted = if ltb 0 l then l else 20 in if ltb 50 wanted then 50 else wanted
