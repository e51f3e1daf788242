-- ===== src/Playback/Store.antt =====
-- Restart and fencing of the mirror: the table of playback_repo.go, and the two ways in.
use vibe_sync.Base.{
  str_eq, eq_iff, subst, Bool-cases, inl, inr, lookup-insert, if◌then◌else◌, ◌<◌, ◌≤◌, ◌≡◌, refl,
  true, false, some, String, ℤ, bits64-of_bits64, uint64_mod, arith,
}
use vibe_sync.Playback.Room.{
  PlaybackRoom, SyncUpdatedV1, SyncCommand, apply_from_event, apply_sync_command,
}
use vibe_sync.Playback.Service.{PlaybackTable, to_row, from_row, upsert, get_row}

module _ {F : Type 0} where
  from_row-to_row :
      (r : PlaybackRoom F) (now : ℤ)
      → r.epoch < uint64_mod
      → r.fencing_token < uint64_mod
      → from_row r.room_id (to_row r now) ≡ record r { updated_at = now }
  unfolding from_row to_row
  from_row-to_row r now e f =
      rw (bits64-of_bits64 r.epoch e, bits64-of_bits64 r.fencing_token f) refl

  -- What was stored of a room is read back whole, its counters included, with the time of the
  -- write; and the rows of the other rooms are as they were.
  pub get_row-upsert :
      (r : PlaybackRoom F) (now : ℤ) (table : PlaybackTable F) (id : String)
      → r.epoch < uint64_mod
      → r.fencing_token < uint64_mod
      → get_row id (upsert r now table)
        ≡ (if str_eq r.room_id id then some (record r { updated_at = now }) else get_row id table)
  unfolding get_row upsert
  get_row-upsert r now table id e f = elim (Bool-cases (str_eq r.room_id id)) [
    | inl t ↦
        let same : r.room_id ≡ id = ground (arith, eq_iff r.room_id id) in
        let read =
          subst (λ x. from_row x (to_row r now) ≡ record r { updated_at = now }) same
            (from_row-to_row r now e f) in
        ground (arith, lookup-insert r.room_id id (to_row r now) table, read)
    | inr n ↦ ground (arith, lookup-insert r.room_id id (to_row r now) table)
  ]

  -- An event is applied whatever its epoch is: after a late one, an older command with the same
  -- token, which the room had turned away, is applied.
  pub late_event_reopens :
      (e : SyncUpdatedV1 F) (c : SyncCommand F) (now late later : ℤ) (r : PlaybackRoom F)
      → c.fencing_token ≡ r.fencing_token
      → c.epoch ≤ r.epoch
      → e.epoch < c.epoch
      → let after = (apply_from_event e late r).1 in
        ((apply_sync_command c now r).0 ≡ false)
        × ((apply_sync_command c later after).0 ≡ true)
        × ((apply_sync_command c later after).1.epoch ≤ r.epoch)
  unfolding apply_from_event apply_sync_command
  late_event_reopens e c now late later r f old gap = ground arith
