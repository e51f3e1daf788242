-- ===== src/Sync/Room/Requests.antt =====
-- room_sync.go: the calls behind the RPCs, and the subscribers.
use vibe_sync.Base.{
  ℕ, ◌+◌, ◌-◌, ◌%◌, Bool, true, false, not, ◌&&◌, Option, none, some, String, str_eq, ℤ, ltb, leb,
  List, [], ◌∷◌, lookup, insert, uint64_mod, select, ◌==◌, if◌then◌else◌, map,
}
use vibe_sync.Sync.Float.{Float64}
use vibe_sync.Sync.State.{CommandKind, Payload, advance_media_time, apply_command}
use vibe_sync.Sync.Heartbeat.{ClientHeartbeat, new_heartbeat, update, client_media_time_at}
use vibe_sync.Sync.Room.{
  RoomSync, Frame, FrameEntry, Subscriber, SyncSnapshot, ring_size, broadcast_update,
  build_snapshot, clamp_int32,
}

pub record HeartbeatReply : Type 0 where
  pub server_wall_time_ms : ℤ
  pub server_media_time_ms : ℤ
  pub epoch : ℕ
  pub client_drift_ms : ℤ
  pub smoothed_rtt_ms : ℤ

-- The reason of a rejection, and the result of a command.
pub data Reason : Type 0 where
  stale_fencing_token not_host : Reason

pub record CommandReply : Type 0 where
  pub epoch : ℕ
  pub accepted : Bool
  pub reason : Option Reason

pub data Recovery (F : Type 0) : Type 0 where
  full : SyncSnapshot F → Recovery F
  replay : List (Frame F) → Recovery F

module _ {F : Type 0} where
  unfoldable pub frames_after : ℕ → List (FrameEntry F) → List (Frame F)
  frames_after since [] = []
  frames_after since (e ∷ es) =
      let rest = frames_after since es in if ltb since e.epoch then e.frame ∷ rest else rest

  -- uint64 subtraction wraps around.
  abbrev pub epochs_behind : RoomSync F → ℕ → ℕ
  epochs_behind rs since = (rs.state.epoch + uint64_mod - since) % uint64_mod

module _ {F : Type 0} ⦃fl : Float64 F⦄ where
  abbrev pub or_new : Option (ClientHeartbeat F) → ClientHeartbeat F
  or_new none = new_heartbeat
  or_new (some hb) = hb

  -- `t2`, `now` and `t3` are the three readings of the clock, in their order. The presence call
  -- that the code starts beside this has no part in the result.
  unfoldable pub process_heartbeat :
      String → ℤ → ℤ → ℤ → ℤ → ℤ → RoomSync F → HeartbeatReply × RoomSync F
  process_heartbeat user client_media client_wall t2 now t3 rs =
      let hb = update client_wall t2 t3 now (or_new (lookup user rs.heartbeats)) in
      let server_media = advance_media_time rs.state t3 in
      let drift = fl.sub (client_media_time_at hb client_media) (fl.of_int server_media) in
      (
        record {
          server_wall_time_ms = t3;
          server_media_time_ms = server_media;
          epoch = rs.state.epoch;
          client_drift_ms = clamp_int32 drift;
          smoothed_rtt_ms = clamp_int32 hb.smoothed_rtt;
        },
        record rs { heartbeats = insert user (record hb { drift_ms = drift }) rs.heartbeats },
      )

  abbrev reject : Reason → RoomSync F → CommandReply × RoomSync F
  reject r rs = (record { epoch = rs.state.epoch; accepted = false; reason = some r }, rs)

  unfoldable pub commanded : CommandKind → Payload F → ℤ → ℤ → RoomSync F → RoomSync F
  commanded kind p now_ms now rs = record rs { state = apply_command kind p now_ms now rs.state }

  unfoldable pub apply_command_locked :
      CommandKind → Payload F → ℕ → ℤ → ℤ → ℤ → RoomSync F → CommandReply × RoomSync F
  apply_command_locked kind p token now_ms now sent rs =
      let after = broadcast_update sent (commanded kind p now_ms now rs) in
      if ltb token rs.state.fencing_token
      then reject stale_fencing_token rs
      else (record { epoch = after.state.epoch; accepted = true; reason = none }, after)

  unfoldable pub process_command :
      String → CommandKind → Payload F → ℕ → ℤ → ℤ → ℤ → RoomSync F → CommandReply × RoomSync F
  unfolding apply_command_locked
  process_command user kind p token now_ms now sent rs =
      if ltb token rs.state.fencing_token
      then reject stale_fencing_token rs
      else if not (str_eq user rs.state.host_id)
      then reject not_host rs
      else apply_command_locked kind p token now_ms now sent rs

  unfoldable pub process_command_authorized :
      CommandKind → Payload F → ℕ → ℤ → ℤ → ℤ → RoomSync F → CommandReply × RoomSync F
  unfolding apply_command_locked
  process_command_authorized kind p token now_ms now sent rs =
      apply_command_locked kind p token now_ms now sent rs

  unfoldable pub recover : ℕ → ℤ → RoomSync F → Recovery F
  recover since now rs =
      if leb (epochs_behind rs since) (ring_size rs.cfg) && ltb 0 since
      then replay (frames_after since rs.ring_buffer)
      else full (build_snapshot now rs)

module _ {F : Type 0} where
  unfoldable pub register_subscriber : RoomSync F → ℕ × RoomSync F
  register_subscriber rs =
      let fresh : Subscriber F = record { channel = rs.next_channel; queue = [] } in
      (
        rs.next_channel,
        record rs { subscribers = fresh ∷ rs.subscribers; next_channel = rs.next_channel + 1 },
      )

  unfoldable pub unregister_subscriber : ℕ → RoomSync F → RoomSync F
  unregister_subscriber ch rs = record rs {
    subscribers = select (λ s. not (s.channel == ch)) rs.subscribers;
  }

  unfoldable pub take_frame : Subscriber F → Subscriber F
  take_frame s = record s { queue = elim s.queue [ [] ↦ [] | f ∷ fs ↦ fs ] }

  -- The receive `<-ch` of the stream that serves the subscriber.
  unfoldable pub receive : ℕ → RoomSync F → RoomSync F
  unfolding take_frame
  receive ch rs = record rs {
    subscribers = map (λ s. if s.channel == ch then take_frame s else s) rs.subscribers;
  }
