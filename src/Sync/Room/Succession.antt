-- ===== src/Sync/Room/Succession.antt =====
-- Who hosts the room after a liveness check.
use vibe_sync.Sync.State.{is_playing}
use vibe_sync.Sync.Room.Migration.{
  migrate_host, orphaned, pause_orphan, check_host_migration, is_present, scan, select_successor,
  preferred_successor, owner_reclaims,
}
use vibe_sync.Sync.Room.{RoomSync, broadcast, broadcast_update, add_to_ring, host_timeout}
use vibe_sync.Sync.Float.{Float64}
use vibe_sync.Base.{
  ◌≡◌, ◌≢◌, ◌⊎◌, inl, inr, refl, sym, ap, subst, List, [], ◌∷◌, Bool, true, false, not, ◌&&◌,
  Bool-cases, arith, String, str_eq, eq_iff, ℤ, ◌<ℤ◌, ◌≤ℤ◌, ltb_ℤ, if◌then◌else◌, All,
}
use vibe_sync.Sync.Heartbeat.{ClientHeartbeat, is_alive}
use mathlib.Core.List.{Memᴰ}

module _ {F : Type 0} ⦃fl : Float64 F⦄ where
  -- A peer that may be elected: somebody else, and alive.
  abbrev pub IsEligible : ℤ → ℤ → String → String × ClientHeartbeat F → Type 0
  IsEligible now timeout excluded p =
      (str_eq p.0 excluded ≡ false) × (is_alive p.1 now timeout ≡ true)

-- The outcome of the search among peers seen before `best`: none is eligible and the successor
-- stays as it was, or the peer is eligible and no eligible peer was seen before it.
pub data Found {F : Type 0} ⦃fl : Float64 F⦄ (now timeout : ℤ) (excluded : String)
    (hbs : List (String × ClientHeartbeat F)) (best : ℤ) (old new : String) : Type 0 where
  nobody :
      new ≡ old
      → All (λ p. IsEligible now timeout excluded p → best ≤ℤ (p.1).last_seen) hbs
      → Found now timeout excluded hbs best old new
  somebody :
      (hb : ClientHeartbeat F)
      → Memᴰ (new, hb) hbs
      → IsEligible now timeout excluded (new, hb)
      → hb.last_seen <ℤ best
      → All (λ p. IsEligible now timeout excluded p → hb.last_seen ≤ℤ (p.1).last_seen) hbs
      → Found now timeout excluded hbs best old new

module _ {F : Type 0} ⦃fl : Float64 F⦄ (now timeout : ℤ) (excluded : String) where
  abbrev better : ℤ → String × ClientHeartbeat F → Bool
  better best p =
      not (str_eq p.0 excluded) && (is_alive p.1 now timeout && ltb_ℤ (p.1).last_seen best)

  taken :
      (id : String) (hb : ClientHeartbeat F) (rest : List (String × ClientHeartbeat F)) (best : ℤ)
      (old new : String)
      → better best (id, hb) ≡ true
      → Found now timeout excluded rest hb.last_seen id new
      → Found now timeout excluded ((id, hb) ∷ rest) best old new
  taken id hb rest best old new b (nobody e none_better) =
      somebody hb (Memᴰ.head (ap (λ j. (j, hb)) e)) (ground (arith, e), ground arith) (ground arith)
        ((λ h. omega arith), none_better)
  taken id hb rest best old new b (somebody other m el lt min) =
      somebody other (Memᴰ.tail m) el (ground arith) ((λ h. omega arith), min)

  passed :
      (id : String) (hb : ClientHeartbeat F) (rest : List (String × ClientHeartbeat F)) (best : ℤ)
      (old new : String)
      → better best (id, hb) ≡ false
      → Found now timeout excluded rest best old new
      → Found now timeout excluded ((id, hb) ∷ rest) best old new
  passed id hb rest best old new b (nobody e none_better) =
      nobody e ((λ h. ground arith), none_better)
  passed id hb rest best old new b (somebody other m el lt min) =
      somebody other (Memᴰ.tail m) el lt ((λ h. ground arith), min)

  scan-Found :
      (hbs : List (String × ClientHeartbeat F)) (best : ℤ) (old : String)
      → Found now timeout excluded hbs best old (scan now timeout excluded hbs best old)
  unfolding scan
  scan-Found [] best old = nobody refl tt
  scan-Found ((id, hb) ∷ rest) best old = elim (Bool-cases (better best (id, hb))) [
    | inl e ↦ rw e (taken id hb rest best old _ e (scan-Found rest hb.last_seen id))
    | inr e ↦ rw e (passed id hb rest best old _ e (scan-Found rest best old))
  ]

module _ {F : Type 0} ⦃fl : Float64 F⦄ where
  -- What the search of a room finds: nobody among the peers seen before now, or the eligible
  -- peer whose last heartbeat is the oldest.
  abbrev pub Elects : ℤ → String → RoomSync F → String → Type 0
  Elects now excluded rs s = Found now (host_timeout rs.cfg) excluded rs.heartbeats now "" s

  select_successor-Elects :
      (now : ℤ) (excluded : String) (rs : RoomSync F)
      → Elects now excluded rs (select_successor now excluded rs)
  unfolding select_successor
  select_successor-Elects now excluded rs =
      scan-Found now (host_timeout rs.cfg) excluded rs.heartbeats now ""

  abbrev pub OwnerAway : ℤ → RoomSync F → Type 0
  OwnerAway now rs = (rs.state.owner_id ≡ "") ⊎ (is_present rs rs.state.owner_id now ≡ false)

  not_reclaimed : (now : ℤ) (rs : RoomSync F) → OwnerAway now rs → owner_reclaims now rs ≡ false
  unfolding owner_reclaims
  not_reclaimed now rs (inl none_known) = ground (arith, eq_iff rs.state.owner_id "")
  not_reclaimed now rs (inr away) = ground arith

  -- An owner who is present hosts the room after the check, whoever hosted it before.
  pub check-owner :
      (now sent : ℤ) (rs : RoomSync F)
      → rs.state.owner_id ≢ ""
      → is_present rs rs.state.owner_id now ≡ true
      → (check_host_migration now sent rs).state.host_id ≡ rs.state.owner_id
  unfolding check_host_migration migrate_host broadcast
  check-owner now sent rs known here =
      elim (Bool-cases (str_eq rs.state.host_id rs.state.owner_id)) [
        | inl e ↦
            let same = (eq_iff rs.state.host_id rs.state.owner_id).0 e in
            ground (
              arith,
              eq_iff rs.state.owner_id "",
              eq_iff rs.state.host_id "",
              subst (λ u. is_present rs u now ≡ true) (sym same) here,
            )
        | inr e ↦ ground (arith, eq_iff rs.state.owner_id "")
      ]

  -- A present host keeps a room whose owner is away.
  pub check-host :
      (now sent : ℤ) (rs : RoomSync F)
      → OwnerAway now rs
      → rs.state.host_id ≢ ""
      → is_present rs rs.state.host_id now ≡ true
      → check_host_migration now sent rs ≡ rs
  unfolding check_host_migration
  check-host now sent rs (inl none_known) some_host here =
      ground (arith, eq_iff rs.state.owner_id "", eq_iff rs.state.host_id "")
  check-host now sent rs (inr away) some_host here = ground (arith, eq_iff rs.state.host_id "")

  preferred_away :
      (now : ℤ) (excluded : String) (rs : RoomSync F)
      → OwnerAway now rs
      → preferred_successor now excluded rs ≡ select_successor now excluded rs
  unfolding preferred_successor
  preferred_away now excluded rs (inl none_known) = ground (arith, eq_iff rs.state.owner_id "")
  preferred_away now excluded rs (inr away) = ground arith

  abbrev hand_over_or_pause : ℤ → ℤ → RoomSync F → String → RoomSync F
  hand_over_or_pause now sent rs s =
      if str_eq s ""
      then (if str_eq rs.state.host_id "" then rs else pause_orphan sent rs)
      else migrate_host s now rs

  check_away :
      (now sent : ℤ) (rs : RoomSync F)
      → OwnerAway now rs
      → is_present rs rs.state.host_id now ≡ false
      → check_host_migration now sent rs
        ≡ hand_over_or_pause now sent rs (select_successor now rs.state.host_id rs)
  unfolding check_host_migration
  check_away now sent rs away gone = elim (Bool-cases (str_eq rs.state.host_id "")) [
    | inl e ↦
        let hostless = (eq_iff rs.state.host_id "").0 e in
        ground (
          arith,
          not_reclaimed now rs away,
          preferred_away now "" rs away,
          ap (λ u. select_successor now u rs) hostless,
        )
    | inr e ↦ ground (arith, not_reclaimed now rs away, preferred_away now rs.state.host_id rs away)
  ]

  orphan-host :
      (sent : ℤ) (rs : RoomSync F) → (pause_orphan sent rs).state.host_id ≡ rs.state.host_id
  unfolding pause_orphan broadcast_update broadcast add_to_ring orphaned
  orphan-host sent rs = ground arith

  orphan_paused :
      (sent : ℤ) (rs : RoomSync F) → is_playing (pause_orphan sent rs).state.status ≡ false
  unfolding pause_orphan broadcast_update broadcast add_to_ring orphaned
  orphan_paused sent rs = ground arith

  -- Where the owner and the host are away, the role goes to the peer that the search finds; where
  -- it finds nobody, the host stays, and the room is not playing, if it had a host.
  pub check-Elects :
      (now sent : ℤ) (rs : RoomSync F)
      → OwnerAway now rs
      → is_present rs rs.state.host_id now ≡ false
      → let s = select_successor now rs.state.host_id rs in
        let after = check_host_migration now sent rs in
        Elects now rs.state.host_id rs s
        × ((s ≢ "") × (after ≡ migrate_host s now rs)
            ⊎ ((s ≡ "")
                × (after.state.host_id ≡ rs.state.host_id)
                × ((rs.state.host_id ≡ "") ⊎ (is_playing after.state.status ≡ false))))
  check-Elects now sent rs away gone =
      let s = select_successor now rs.state.host_id rs in
      let outcome = check_away now sent rs away gone in
      (
        select_successor-Elects now rs.state.host_id rs,
        elim (Bool-cases (str_eq s "")) [
          | inl nobody_left ↦ rw outcome (
              inr (
                ground (arith, eq_iff s ""),
                ground (arith, eq_iff s "", orphan-host sent rs),
                elim (Bool-cases (str_eq rs.state.host_id "")) [
                  | inl hostless ↦ inl (ground (arith, eq_iff rs.state.host_id ""))
                  | inr had_host ↦ inr (ground (arith, orphan_paused sent rs))
                ],
              ))
          | inr somebody_left ↦ rw outcome (inl (ground (arith, eq_iff s ""), ground arith))
        ],
      )
