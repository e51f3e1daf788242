-- ===== src/Examples/Resolutions.antt =====
-- An example on the resolution of a video.
use vibe_sync.Base.{◌≡◌, refl, true, none, some, pos, List, []}
use vibe_sync.Provider.{youtube, Result, ok, Surroundings, CachedMedia, resolve}
use vibe_sync.Provider.Clients.{ResolvedMedia, watch_url}
use vibe_sync.Provider.Resolved.{resolved_again}

abbrev online : Surroundings
online = record {
  spotify_call = none;
  youtube_call = some (λ ref. some (record {
    status = 200;
    body = some (record { title = "Song"; author_name = "Band"; thumbnail_url = "img" });
  }));
  user_id = "";
  user_token = λ slug. none;
  reads = true;
  writes = true;
}

abbrev offline : Surroundings
offline = record online { youtube_call = none }

abbrev song : ResolvedMedia
song = record {
  external_ref = "abc";
  title = "Song";
  artist = "Band";
  cover_url = "img";
  playable_url = watch_url "abc";
  duration_ms = pos 0;
}

abbrev after : List CachedMedia
after = (resolve youtube "abc" online []).1

resolved_again_example : resolve youtube "abc" offline after ≡ (ok song, after)
unfolding resolve vibe_sync.Provider.provider_slug vibe_sync.Provider.ask_provider
    vibe_sync.Provider.Clients.resolve_video vibe_sync.Provider.cache_upsert
    vibe_sync.Provider.fill_playable_url vibe_sync.Provider.cache_get watch_url
resolved_again_example = resolved_again youtube "abc" online offline [] after song refl refl refl
