-- ===== src/Sync/Service/Rooms.antt =====
-- The life of a room in service.go: created once, by whichever comes first.
use vibe_sync.Sync.State.{SyncState}
use vibe_sync.Sync.Room.Migration.{owned, hosted, adopt_owner_if_unset}
use vibe_sync.Sync.Room.Tick.{start, new_room_sync}
use vibe_sync.Sync.Room.{RoomSync, broadcast, broadcast_update, add_to_ring}
use vibe_sync.Sync.Float.{Float64}
use vibe_sync.Base.{
  ◌≡◌, ◌≢◌, inl, inr, refl, Option, none, some, Option-cases, arith, String, eq_iff, ℤ, lookup,
  insert, lookup-insert_self, lookup-insert_other,
}
use vibe_sync.Sync.Service.{RoomManager, get_or_create, init, or_fresh, fresh_state}

module _ {F : Type 0} ⦃fl : Float64 F⦄ where
  -- The owner hosts the room that is announced, or hosted it when it was announced.
  abbrev pub IsOwned : String → Option (RoomSync F) → Type 0
  IsOwned owner none = ⊥
  IsOwned owner (some rs) = (rs.state.host_id ≡ owner) × (rs.state.owner_id ≡ owner)

  adopt_hostless :
      (owner : String) (now sent : ℤ) (rs : RoomSync F)
      → owner ≢ ""
      → rs.state.host_id ≡ ""
      → rs.state.owner_id ≡ ""
      → IsOwned owner (some (adopt_owner_if_unset owner now sent rs).1)
  unfolding adopt_owner_if_unset hosted owned broadcast_update broadcast add_to_ring
  adopt_hostless owner now sent rs n h o = (
    ground (arith, eq_iff owner "", eq_iff rs.state.host_id "", eq_iff rs.state.owner_id ""),
    ground (arith, eq_iff owner "", eq_iff rs.state.host_id "", eq_iff rs.state.owner_id ""),
  )

  made : SyncState F → String → RoomManager F → RoomSync F
  made st id m = start (new_room_sync m.cfg id st)

  abbrev put : String → RoomSync F → RoomManager F → RoomManager F
  put id rs m = record m { rooms = insert id rs m.rooms }

  get_old :
      (id : String) (p : Option (SyncState F)) (m : RoomManager F) (rs : RoomSync F)
      → lookup id m.rooms ≡ some rs
      → get_or_create id p m ≡ (rs, m)
  unfolding get_or_create
  get_old id p m rs e = rw (e, get_or_create)

  get_created :
      (id : String) (p : Option (SyncState F)) (m : RoomManager F)
      → lookup id m.rooms ≡ none
      → get_or_create id p m ≡ (made (or_fresh id p) id m, put id (made (or_fresh id p) id m) m)
  unfolding get_or_create made
  get_created id p m e = rw (e, get_or_create)

  init_old :
      (id owner : String) (now sent : ℤ) (m : RoomManager F) (rs : RoomSync F)
      → lookup id m.rooms ≡ some rs
      → init id owner now sent m ≡ put id (adopt_owner_if_unset owner now sent rs).1 m
  unfolding init
  init_old id owner now sent m rs e = rw (e, init)

  init_new :
      (id owner : String) (now sent : ℤ) (m : RoomManager F)
      → lookup id m.rooms ≡ none
      → init id owner now sent m ≡ put id (made (fresh_state id owner) id m) m
  unfolding init made
  init_new id owner now sent m e = rw (e, init)

  -- A room without persisted state belongs to its owner in the end, whether a subscriber or the
  -- announcement of the room materializes it first.
  pub init_order :
      (id owner : String) (now sent : ℤ) (m : RoomManager F)
      → owner ≢ ""
      → lookup id m.rooms ≡ none
      → IsOwned owner (lookup id (init id owner now sent (get_or_create id none m).1).rooms)
        × IsOwned owner (lookup id (get_or_create id none (init id owner now sent m)).1.rooms)
  unfolding made start new_room_sync fresh_state
  init_order id owner now sent m n fresh =
      let empty = made (fresh_state id "") id m in
      let full = made (fresh_state id owner) id m in
      (
        rw
            (
              get_created id none m fresh,
              init_old id owner now sent (put id empty m) empty
                  (lookup-insert_self id empty m.rooms),
              lookup-insert_self id (adopt_owner_if_unset owner now sent empty).1
                  (insert id empty m.rooms),
            )
            (adopt_hostless owner now sent empty n refl refl),
        rw
            (
              init_new id owner now sent m fresh,
              get_old id none (put id full m) full (lookup-insert_self id full m.rooms),
              lookup-insert_self id full m.rooms,
            )
            (refl, refl),
      )

  -- The announcement and the requests of one room leave every other room as it is.
  pub rooms_isolated :
      (id other owner : String) (persisted : Option (SyncState F)) (now sent : ℤ)
      (m : RoomManager F)
      → other ≢ id
      → (lookup other (init id owner now sent m).rooms ≡ lookup other m.rooms)
        × (lookup other (get_or_create id persisted m).1.rooms ≡ lookup other m.rooms)
  rooms_isolated id other owner persisted now sent m n = elim (Option-cases (lookup id m.rooms)) [
    | inl e ↦ (
      rw (init_new id owner now sent m e) (lookup-insert_other id other _ m.rooms n),
      rw (get_created id persisted m e) (lookup-insert_other id other _ m.rooms n),
    )
    | inr (rs, e) ↦ (
      rw (init_old id owner now sent m rs e) (lookup-insert_other id other _ m.rooms n),
      rw (get_old id persisted m rs e) refl,
    )
  ]
