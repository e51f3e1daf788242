-- ===== src/RoomService/Transaction.antt =====
-- apps/room-service/internal/app/service.go: a transaction on the tables, and the errors.
use vibe_sync.Base.{Bool, true, false, Option, none, some}
use vibe_sync.RoomService.Model.{RoomNameError}
use vibe_sync.RoomService.Tables.{Db}

pub data RoomError : Type 0 where
  permission_denied missing_room_id not_found room_full owner_cannot_leave grant_self
        create_failed :
      RoomError
  invalid_room : RoomNameError → RoomError

pub data Result {ℓ} (A : Type ℓ) : Type ℓ where
  ok : A → Result A
  err : RoomError → Result A

-- Statements: a result, and the tables as the statements left them.
abbrev pub Tx : Type 0 → Type 0
Tx A = Db → Result A × Db

abbrev pub and_then : {A B : Type 0} → (A → Tx B) → Result A × Db → Result B × Db
and_then k (ok a, db) = k a db
and_then k (err e, db) = (err e, db)

infixl 5 ◌>>=◌ ◌>>◌
abbrev pub ◌>>=◌ : {A B : Type 0} → Tx A → (A → Tx B) → Tx B
◌>>=◌ m k db = and_then k (m db)

abbrev pub ◌>>◌ : {B : Type 0} → Tx (Unit {0}) → Tx B → Tx B
m >> k = m >>= λ _. k

abbrev pub pure : {A : Type 0} → A → Tx A
pure a db = (ok a, db)

abbrev pub require : Bool → RoomError → Tx (Unit {0})
require true e db = (ok tt, db)
require false e db = (err e, db)

abbrev pub found_or : {A : Type 0} → RoomError → Option A → Tx A
found_or e none db = (err e, db)
found_or e (some a) db = (ok a, db)

abbrev pub exec : (Db → Db) → Tx (Unit {0})
exec f db = (ok tt, f db)

-- A nil error commits, any other rolls back.
abbrev pub finish : {A : Type 0} → Db → Result A × Db → Result A × Db
finish before (ok a, db) = (ok a, db)
finish before (err e, db) = (err e, before)

unfoldable pub in_tx : {A : Type 0} → Tx A → Db → Result A × Db
in_tx m db = finish db (m db)
