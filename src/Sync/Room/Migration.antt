-- ===== src/Sync/Room/Migration.antt =====
-- room_sync.go: host liveness, the choice of a successor, and the hand-over of the host role.
use vibe_sync.Base.{
  Bool, true, false, not, ◌&&◌, Option, none, some, String, str_eq, ℤ, ltb_ℤ, List, [], ◌∷◌, inc64,
  lookup, if◌then◌else◌,
}
use vibe_sync.Sync.Float.{Float64, zero_f}
use vibe_sync.Sync.State.{paused, is_playing}
use vibe_sync.Sync.Heartbeat.{ClientHeartbeat, is_alive}
use vibe_sync.Sync.Room.{RoomSync, Frame, host_migration, host_timeout, broadcast, broadcast_update}

module _ {F : Type 0} ⦃fl : Float64 F⦄ where
  -- `hb, ok := rs.heartbeats[id]; ok && hb.IsAlive(...)`
  abbrev pub alive_entry : Option (ClientHeartbeat F) → ℤ → ℤ → Bool
  alive_entry none now timeout = false
  alive_entry (some hb) now timeout = is_alive hb now timeout

  unfoldable pub is_present : RoomSync F → String → ℤ → Bool
  is_present rs id now = alive_entry (lookup id rs.heartbeats) now (host_timeout rs.cfg)

  -- The loop of `selectSuccessorLocked`, with its variables `bestTime` and `successor`.
  unfoldable pub scan : ℤ → ℤ → String → List (String × ClientHeartbeat F) → ℤ → String → String
  scan now timeout excluded [] best successor = successor
  scan now timeout excluded ((id, hb) ∷ rest) best successor =
      let better =
        not (str_eq id excluded) && (is_alive hb now timeout && ltb_ℤ hb.last_seen best) in
      scan now timeout excluded rest (if better then hb.last_seen else best)
        (if better then id else successor)

  unfoldable pub select_successor : ℤ → String → RoomSync F → String
  select_successor now excluded rs = scan now (host_timeout rs.cfg) excluded rs.heartbeats now ""

  unfoldable pub preferred_successor : ℤ → String → RoomSync F → String
  preferred_successor now excluded rs =
      if not (str_eq rs.state.owner_id "")
        && (not (str_eq rs.state.owner_id excluded) && is_present rs rs.state.owner_id now)
      then rs.state.owner_id
      else select_successor now excluded rs

  unfoldable pub migrate_host : String → ℤ → RoomSync F → RoomSync F
  migrate_host successor now rs =
      let st = record rs.state {
        host_id = successor;
        epoch = inc64 rs.state.epoch;
        fencing_token = inc64 rs.state.fencing_token;
        epoch_started = now;
      } in
      let frame : Frame F = host_migration now (record {
        room_id = rs.room_id;
        previous_host_id = rs.state.host_id;
        new_host_id = successor;
        new_epoch = st.epoch;
        new_fencing_token = st.fencing_token;
        at = now;
      }) in
      broadcast frame (record rs { state = st })

  unfoldable pub orphaned : RoomSync F → RoomSync F
  orphaned rs = record rs {
    state = record rs.state {
      status = paused;
      playback_rate = zero_f;
      epoch = inc64 rs.state.epoch;
    };
  }

  -- Nobody can take over: a playing room is paused.
  unfoldable pub pause_orphan : ℤ → RoomSync F → RoomSync F
  pause_orphan sent rs =
      if is_playing rs.state.status then broadcast_update sent (orphaned rs) else rs

  unfoldable pub owner_reclaims : ℤ → RoomSync F → Bool
  owner_reclaims now rs =
      not (str_eq rs.state.owner_id "")
      && (not (str_eq rs.state.host_id rs.state.owner_id) && is_present rs rs.state.owner_id now)

  unfoldable pub check_host_migration : ℤ → ℤ → RoomSync F → RoomSync F
  unfolding owner_reclaims
  check_host_migration now sent rs =
      let first = preferred_successor now "" rs in
      let next = preferred_successor now rs.state.host_id rs in
      if owner_reclaims now rs
      then migrate_host rs.state.owner_id now rs
      else if str_eq rs.state.host_id ""
      then (if str_eq first "" then rs else migrate_host first now rs)
      else if is_present rs rs.state.host_id now
      then rs
      else if str_eq next ""
      then pause_orphan sent rs
      else migrate_host next now rs

  unfoldable pub owned : String → RoomSync F → RoomSync F
  owned owner rs = record rs { state = record rs.state { owner_id = owner } }

  unfoldable pub hosted : String → ℤ → RoomSync F → RoomSync F
  hosted owner now rs = record rs {
    state = record rs.state { host_id = owner; epoch = inc64 rs.state.epoch; epoch_started = now };
  }

  unfoldable pub adopt_owner_if_unset : String → ℤ → ℤ → RoomSync F → Bool × RoomSync F
  adopt_owner_if_unset owner now sent rs =
      let known = if str_eq rs.state.owner_id "" then owned owner rs else rs in
      if str_eq owner ""
      then (false, rs)
      else if not (str_eq known.state.host_id "")
      then (false, known)
      else (true, broadcast_update sent (hosted owner now known))
