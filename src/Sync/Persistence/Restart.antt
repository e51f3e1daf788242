-- ===== src/Sync/Persistence/Restart.antt =====
-- What a room is after a restart of the process.
use vibe_sync.Base.{
  ◌<◌, ◌≡◌, refl, ap, ◌∙◌, true, false, Option, some, String, ℤ, [], arith, lookup, insert,
  lookup-insert_self, bits64-of_bits64, uint64_mod,
}
use vibe_sync.Sync.Float.{Float64}
use vibe_sync.Sync.State.{SyncState}
use vibe_sync.Sync.Room.{RoomSync}
use vibe_sync.Sync.Room.Tick.{new_room_sync, start}
use vibe_sync.Sync.Service.{get_or_create, fresh_state, or_fresh}
use vibe_sync.Sync.Persistence.{
  SyncRow, SyncTable, Process, state_row, upsert_state, state_of, get_state, persist_state,
  checkpoint, restart, open_room,
}

module _ {F : Type 0} where
  state_of-state_row :
      (s : SyncState F) (now : ℤ)
      → s.epoch < uint64_mod
      → s.fencing_token < uint64_mod
      → state_of s.room_id (state_row s now) ≡ record s { epoch_started = now }
  unfolding state_of state_row
  state_of-state_row s now e f =
      rw (bits64-of_bits64 s.epoch e, bits64-of_bits64 s.fencing_token f) refl

  get_state-insert :
      (id : String) (row : SyncRow F) (table : SyncTable F)
      → get_state id (insert id row table) ≡ some (state_of id row)
  unfolding get_state
  get_state-insert id row table = rw (lookup-insert_self id row table, get_state) refl

  get-upsert :
      (s : SyncState F) (now : ℤ) (table : SyncTable F)
      → s.epoch < uint64_mod
      → s.fencing_token < uint64_mod
      → get_state s.room_id (upsert_state s now table) ≡ some (record s { epoch_started = now })
  unfolding upsert_state
  get-upsert s now table e f =
      get_state-insert s.room_id (state_row s now) table ∙ ap some (state_of-state_row s now e f)

  checkpoint-table :
      (id : String) (now : ℤ) (p : Process F) (rs : RoomSync F)
      → lookup id p.manager.rooms ≡ some rs
      → (checkpoint id true now p).table ≡ upsert_state rs.state now p.table
  unfolding checkpoint persist_state
  checkpoint-table id now p rs h = rw (h, checkpoint) refl

module _ {F : Type 0} ⦃fl : Float64 F⦄ where
  opened-state :
      (id : String) (p : Process F) (o : Option (SyncState F))
      → get_state id p.table ≡ o
      → (open_room id true (restart p)).0.state ≡ or_fresh id o
  unfolding open_room get_or_create new_room_sync start restart lookup
  opened-state id p o h = rw h refl

  unread-state :
      (id : String) (p : Process F) → (open_room id false (restart p)).0.state ≡ fresh_state id ""
  unfolding open_room get_or_create new_room_sync start restart lookup
  unread-state id p = refl

  -- A room that is opened again after a checkpoint and a restart has the state of the checkpoint,
  -- to the epoch and the fencing token, but for the start of the epoch, which is the time of the
  -- checkpoint.
  pub restart-checkpoint :
      (p : Process F) (rs : RoomSync F) (now : ℤ)
      → lookup rs.state.room_id p.manager.rooms ≡ some rs
      → rs.state.epoch < uint64_mod
      → rs.state.fencing_token < uint64_mod
      → (open_room rs.state.room_id true (restart (checkpoint rs.state.room_id true now p))).0.state
        ≡ record rs.state { epoch_started = now }
  unfolding restart
  restart-checkpoint p rs now h e f =
      opened-state rs.state.room_id (restart (checkpoint rs.state.room_id true now p))
        (some (record rs.state { epoch_started = now }))
        (ap (get_state rs.state.room_id) (checkpoint-table rs.state.room_id now p rs h)
          ∙ get-upsert rs.state now p.table e f)

  opened-room :
      (id : String) (p : Process F)
      → lookup id (open_room id false (restart p)).1.manager.rooms
        ≡ some (open_room id false (restart p)).0
  unfolding open_room get_or_create restart lookup
  opened-room id p = lookup-insert_self id _ []

  -- When the row of a room cannot be read after a restart, be it for an error that passes, the room
  -- starts over, and its next checkpoint writes over the row: the restart after that opens the
  -- state of a new room without owner or host, at epoch 0 and fencing token 0, whatever was stored.
  pub unreadable_row_lost :
      (id : String) (p : Process F) (now : ℤ)
      → (open_room id true
          (restart (checkpoint id true now (open_room id false (restart p)).1))).0.state
        ≡ record (fresh_state id "") { epoch_started = now }
  unfolding fresh_state
  unreadable_row_lost id p now =
      let q = (open_room id false (restart p)).1 in
      opened-state id (checkpoint id true now (open_room id false (restart p)).1)
        (some (record (fresh_state id "") { epoch_started = now }))
        (ap (get_state id) (
            checkpoint-table id now q (open_room id false (restart p)).0 (opened-room id p)
            ∙ ap (λ (x : SyncState F). upsert_state x now q.table) (unread-state id p))
          ∙ get-upsert (fresh_state id "") now q.table (omega arith) (omega arith))
