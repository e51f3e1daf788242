-- ===== src/Auth/Transactions.antt =====
-- What a transaction that succeeded did, step by step.
use vibe_sync.Base.{Bool, true, false}
use vibe_sync.Auth.Refresh.{guard}
use vibe_sync.Auth.Store.{pure, AuthError}
use vibe_sync.Base.{sym, ap, ◌∙◌}
use vibe_sync.Base.{◌≡◌, refl, Option, none, some, arith}
use vibe_sync.Auth.Store.{
  AuthError, Db, Result, ok, err, Tx, after_step, ◌>>=◌, or_fail, with_tx, commit_or_rollback,
}

module _ {A B : Type 0} where
  after_step-ok :
      (k : A → Tx B) (x : Result A × Db) {b : B} {after : Db}
      → after_step k x ≡ (ok b, after)
      → (a : A) × (mid : Db) × (x ≡ (ok a, mid)) × (k a mid ≡ (ok b, after))
  after_step-ok k (ok a, mid) h = (a, mid, refl, h)
  after_step-ok k (err e, mid) h = absurd (ground (arith, h))

  -- Both steps of a sequence that succeeds succeed.
  pub >>=-ok :
      (m : Tx A) (k : A → Tx B) (db : Db) {b : B} {after : Db}
      → (m >>= k) db ≡ (ok b, after)
      → (a : A) × (mid : Db) × (m db ≡ (ok a, mid)) × (k a mid ≡ (ok b, after))
  >>=-ok m k db h = after_step-ok k (m db) h

module _ {A : Type 0} where
  committed-ok :
      (db : Db) (x : Result A × Db) {a : A} {after : Db}
      → commit_or_rollback db x ≡ (ok a, after)
      → x ≡ (ok a, after)
  unfolding commit_or_rollback
  committed-ok db (ok b, mid) h = h
  committed-ok db (err e, mid) h = ground (arith, h)

  pub with_tx-ok :
      (m : Tx A) (db : Db) {a : A} {after : Db}
      → with_tx m db ≡ (ok a, after)
      → m db ≡ (ok a, after)
  unfolding with_tx
  with_tx-ok m db h = committed-ok db (m db) h

  pub with_tx_err :
      (m : Tx A) (db : Db) {e : AuthError} {after : Db}
      → m db ≡ (err e, after)
      → with_tx m db ≡ (err e, db)
  unfolding with_tx commit_or_rollback
  with_tx_err m db h = rw h refl

  -- A row that had to be there is, and reading it changes nothing.
  pub or_fail-ok :
      (e : AuthError) (o : Option A) (db : Db) {a : A} {after : Db}
      → or_fail e o db ≡ (ok a, after)
      → (o ≡ some a) × (db ≡ after)
  or_fail-ok e none db h = absurd (ground (arith, h))
  or_fail-ok e (some b) db h = (ground (arith, h), ground (arith, h))

-- A step that succeeds leaves `f` of the tables alone.
abbrev pub Keeps {ℓ} : {A : Type 0} {X : Type ℓ} → (Db → X) → Tx A → Type ℓ
Keeps {A} f m = (db after : Db) (a : A) → m db ≡ (ok a, after) → f after ≡ f db

module _ {ℓ} {X : Type ℓ} (f : Db → X) where
  pub Keeps->>= :
      {A B : Type 0} (m : Tx A) (k : A → Tx B)
      → Keeps f m
      → ((a : A) → Keeps f (k a))
      → Keeps f (m >>= k)
  Keeps->>= m k hm hk db after b h =
      let (a, mid, first, second) = >>=-ok m k db h in hk a mid after b second ∙ hm db mid a first

  pub Keeps-or_fail : {A : Type 0} (e : AuthError) (o : Option A) → Keeps f (or_fail e o)
  Keeps-or_fail e o db after a h = ap f (sym (or_fail-ok e o db h).1)

  pub Keeps-guard : (b : Bool) (e : AuthError) → Keeps f (guard b e)
  Keeps-guard true e db after a h = ground (arith, h)
  Keeps-guard false e db after a h = absurd (ground (arith, h))

  pub Keeps-pure : {A : Type 0} (x : A) → Keeps f (pure x)
  Keeps-pure x db after a h = ground (arith, h)

  rolled_back :
      {A : Type 0} (m : Tx A) (db : Db) (x : Result A × Db)
      → Keeps f m
      → m db ≡ x
      → f (commit_or_rollback db x).1 ≡ f db
  unfolding commit_or_rollback
  rolled_back m db (ok a, after) h e = h db after a e
  rolled_back m db (err g, after) h e = refl

  -- A transaction leaves it alone whether it succeeds or fails.
  pub with_tx_keeps : {A : Type 0} (m : Tx A) (db : Db) → Keeps f m → f (with_tx m db).1 ≡ f db
  unfolding with_tx
  with_tx_keeps m db h = rolled_back m db (m db) h refl
