-- ===== src/Provider/Resolved.antt =====
-- A resolution that was given is given again, from the cache.
use vibe_sync.Base.{
  ◌≡◌, refl, sym, ap, ◌∙◌, subst, Bool, true, false, Bool-cases, Option-cases, inl, inr, Option,
  none, some, String, str_eq, eq_refl, List, [], ◌∷◌, arith, if_true, if_false, if◌then◌else◌,
}
use vibe_sync.Provider.{
  ProviderName, unspecified, spotify, youtube, Result, ok, err, CachedMedia, cache_get,
  cache_upsert, provider_slug, canonical_url, fill_playable_url, Surroundings, with_token,
  ask_provider, store_resolved, hit_or_ask, resolve_slug, resolve, missing_external_ref,
  cache_read_failed,
}
use vibe_sync.Provider.Clients.{
  ResolvedMedia, Lookup, resolved, absent, broken, Answer, Oembed, Track, watch_url, track_url,
  resolve_video, resolve_track,
}

cache_get-upsert :
    (provider : String) (m : ResolvedMedia) (table : List CachedMedia)
    → cache_get provider m.external_ref (cache_upsert provider m table)
      ≡ some (record m { playable_url = "" })
unfolding cache_get cache_upsert
cache_get-upsert provider m [] = ground (arith, eq_refl provider, eq_refl m.external_ref)
cache_get-upsert provider m (o ∷ os) =
    ground (arith, eq_refl provider, eq_refl m.external_ref, cache_get-upsert provider m os)

-- What a client resolves carries the URL that the cache builds again.
resolve_video-url :
    (ref : String) (o : Option (Answer Oembed)) (m : ResolvedMedia)
    → resolve_video ref o ≡ resolved m
    → m.playable_url ≡ watch_url m.external_ref
unfolding resolve_video
resolve_video-url ref none m h = absurd (ground (arith, h))
resolve_video-url ref (some a) m h = elim (Option-cases a.body) [
  | inl e ↦ absurd (ground (arith, e, h))
  | inr (o, e) ↦ ground (arith, e, h)
]

resolve_track-url :
    (o : Option (Answer Track)) (m : ResolvedMedia)
    → resolve_track o ≡ resolved m
    → m.playable_url ≡ track_url m.external_ref
unfolding resolve_track
resolve_track-url none m h = absurd (ground (arith, h))
resolve_track-url (some a) m h = elim (Option-cases a.body) [
  | inl e ↦ absurd (ground (arith, e, h))
  | inr (t, e) ↦ ground (arith, e, h)
]

with_token-url :
    (o : Option String) (call : String → Option (Answer Track)) (m : ResolvedMedia)
    → with_token o call ≡ ok (resolved m)
    → m.playable_url ≡ track_url m.external_ref
with_token-url none call m h = absurd (ground (arith, h))
with_token-url (some t) call m h = resolve_track-url (call t) m (ground (arith, h))

ask_provider-url :
    (p : ProviderName) (slug ref : String) (s : Surroundings) (m : ResolvedMedia)
    → ask_provider p slug ref s ≡ ok (resolved m)
    → m.playable_url ≡ canonical_url p m.external_ref
unfolding ask_provider
ask_provider-url unspecified slug ref s m h = absurd (ground (arith, h))
ask_provider-url spotify slug ref s m h = elim (Option-cases s.spotify_call) [
  | inl e ↦ absurd (ground (arith, e, h))
  | inr (call, e) ↦
      with_token-url (if str_eq s.user_id "" then some "" else s.user_token slug) (call ref) m
        (ground (arith, e, h))
]
ask_provider-url youtube slug ref s m h = elim (Option-cases s.youtube_call) [
  | inl e ↦ absurd (ground (arith, e, h))
  | inr (call, e) ↦ resolve_video-url ref (call ref) m (ground (arith, e, h))
]

-- The row of this reference rebuilds this media.
abbrev Holds : ProviderName → String → String → ResolvedMedia → List CachedMedia → Type 0
Holds p slug ref m table =
    (c : ResolvedMedia) × (cache_get slug ref table ≡ some c) × (fill_playable_url p c ≡ m)

stored-Holds :
    (p : ProviderName) (slug ref : String) (m : ResolvedMedia) (table : List CachedMedia)
    → m.playable_url ≡ canonical_url p m.external_ref
    → (fill_playable_url p m).external_ref ≡ ref
    → Holds p slug ref (fill_playable_url p m) (cache_upsert slug m table)
unfolding fill_playable_url
stored-Holds p slug ref m table url same =
    let own : m.external_ref ≡ ref = ground (arith, same) in
    (
      record m { playable_url = "" },
      subst
          (λ (x : String).
            cache_get slug x (cache_upsert slug m table) ≡ some (record m { playable_url = "" }))
          own (cache_get-upsert slug m table),
      ground (arith, url),
    )

answered-Holds :
    (p : ProviderName) (slug ref : String) (writes : Bool) (r : Result Lookup)
    (table after : List CachedMedia) (m : ResolvedMedia)
    → ((x : ResolvedMedia) → r ≡ ok (resolved x) → x.playable_url ≡ canonical_url p x.external_ref)
    → m.external_ref ≡ ref
    → store_resolved p slug writes r table ≡ (ok m, after)
    → Holds p slug ref m after
answered-Holds p slug ref writes (err e) table after m url same h = absurd (ground (arith, h))
answered-Holds p slug ref writes (ok absent) table after m url same h = absurd (ground (arith, h))
answered-Holds p slug ref writes (ok broken) table after m url same h = absurd (ground (arith, h))
answered-Holds p slug ref false (ok (resolved x)) table after m url same h =
    absurd (ground (arith, h))
answered-Holds p slug ref true (ok (resolved x)) table after m url same h =
    let value : fill_playable_url p x ≡ m = ground (arith, h) in
    let rows : cache_upsert slug x table ≡ after = ground (arith, h) in
    let (c, found, filled) =
      stored-Holds p slug ref x table (url x refl)
        (ap (λ (y : ResolvedMedia). y.external_ref) value ∙ same) in
    (c, subst (λ (t : List CachedMedia). cache_get slug ref t ≡ some c) rows found, filled ∙ value)

hit_or_ask-Holds :
    (p : ProviderName) (slug ref : String) (s : Surroundings) (o : Option ResolvedMedia)
    (table after : List CachedMedia) (m : ResolvedMedia)
    → cache_get slug ref table ≡ o
    → m.external_ref ≡ ref
    → hit_or_ask p slug ref s o table ≡ (ok m, after)
    → Holds p slug ref m after
hit_or_ask-Holds p slug ref s (some c) table after m found same h = (
  c,
  subst (λ (t : List CachedMedia). cache_get slug ref t ≡ some c) (ground (arith, h)) found,
  ground (arith, h),
)
hit_or_ask-Holds p slug ref s none table after m found same h =
    answered-Holds p slug ref s.writes (ask_provider p slug ref s) table after m
      (ask_provider-url p slug ref s) same h

served :
    (p : ProviderName) (slug ref : String) (s : Surroundings) (m : ResolvedMedia)
    (table : List CachedMedia)
    → s.reads ≡ true
    → Holds p slug ref m table
    → resolve_slug (some slug) p ref s table ≡ (ok m, table)
served p slug ref s m table reads (c, found, filled) = rw (reads, found, filled) refl

by_slug :
    (o : Option String) (p : ProviderName) (ref : String) (s s' : Surroundings)
    (table after : List CachedMedia) (m : ResolvedMedia)
    → m.external_ref ≡ ref
    → s'.reads ≡ true
    → resolve_slug o p ref s table ≡ (ok m, after)
    → resolve_slug o p ref s' after ≡ (ok m, after)
by_slug none p ref s s' table after m same reads h = absurd (ground (arith, h))
by_slug (some slug) p ref s s' table after m same reads h = elim (Bool-cases s.reads) [
  | inr broken_table ↦ absurd (ground (arith, broken_table, h))
  | inl fine ↦ served p slug ref s' m after reads (
      hit_or_ask-Holds p slug ref s (cache_get slug ref table) table after m refl same
        (if_true _ (err cache_read_failed, table) fine ∙ h))
]

-- When a request was answered with media of the reference that it asked for, from the cache or by
-- the provider, a later request for it is answered with the same media, to the playable URL that
-- the table does not store, and changes nothing, whatever has become of the clients and of the
-- user's token, if only the table can be read.
pub resolved_again :
    (p : ProviderName) (ref : String) (s s' : Surroundings) (table after : List CachedMedia)
    (m : ResolvedMedia)
    → m.external_ref ≡ ref
    → s'.reads ≡ true
    → resolve p ref s table ≡ (ok m, after)
    → resolve p ref s' after ≡ (ok m, after)
unfolding resolve
resolved_again p ref s s' table after m same reads h = elim (Bool-cases (str_eq ref "")) [
  | inl blank ↦ absurd (ground (arith, blank, h))
  | inr named ↦
      sym (if_false (err missing_external_ref, after) _ named)
      ∙ by_slug (provider_slug p) p ref s s' table after m same reads
          (if_false (err missing_external_ref, table) _ named ∙ h)
]
