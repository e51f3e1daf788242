-- ===== src/Auth/Oauth/Accounts.antt =====
-- The account of a provider's identity after its user is found, linked or made.
use vibe_sync.Auth.Store.{linked_user_missing}
use vibe_sync.Auth.Store.{OAuthAccount, User, OAuthFlow, Db, ok, Tx, ◌>>=◌, storage_failure}
use vibe_sync.Auth.Oauth.{
  new_params, account_of, ProviderProfile, OAuthDraws, create_linked, user_by_email,
  user_of_account, valid_profile,
}
use vibe_sync.Auth.OauthTables.{get_account, upsert_account}
use vibe_sync.Auth.Transactions.{>>=-ok, or_fail-ok, Keeps}
use vibe_sync.Base.{
  subst, ◌≡◌, refl, sym, ap, Option, none, some, String, eq_iff, List, [], ◌∷◌, ◌++◌, arith, lookup,
}
use vibe_sync.Auth.Oauth.Frame.{kept, create_user-Keeps, stage_created-Keeps}
use vibe_sync.Auth.Login.{get_by_email}
use vibe_sync.Auth.Names.{NewUser, refused, fine, new_user}
use vibe_sync.Auth.Register.{create_user, stage_created}

abbrev pub accounts : Db → List OAuthAccount
accounts db = db.accounts

abbrev pub of_kept : {A : Type 0} (m : Tx A) → Keeps kept m → Keeps accounts m
of_kept m h db after a e = ap (λ (x : List OAuthFlow × List OAuthAccount). x.1) (h db after a e)

get_account-append :
    (provider id : String) (a : OAuthAccount) (as' : List OAuthAccount)
    → get_account provider id as' ≡ none
    → a.provider ≡ provider
    → a.provider_user_id ≡ id
    → get_account provider id (as' ++ a ∷ []) ≡ some a
unfolding get_account
get_account-append provider id a [] h p q =
    ground (arith, p, q, eq_iff a.provider provider, eq_iff a.provider_user_id id)
get_account-append provider id a (b ∷ rest) h p q =
    ground (arith, get_account-append provider id a rest)

upsert_account-links :
    (a : OAuthAccount) (db after : Db) {x : Unit {0}}
    → get_account a.provider a.provider_user_id db.accounts ≡ none
    → upsert_account a db ≡ (ok x, after)
    → get_account a.provider a.provider_user_id after.accounts ≡ some a
unfolding upsert_account
upsert_account-links a db after free h =
    ground (
      arith,
      free,
      h,
      get_account-append a.provider a.provider_user_id a db.accounts free refl refl,
    )

abbrev pub Linked : String → ProviderProfile → String → Db → Type 0
Linked name profile user db =
    (a : OAuthAccount) × (get_account name profile.provider_user_id db.accounts ≡ some a)
    × (a.user_id ≡ user)

create_linked-Linked :
    (u v : User) (name : String) (profile : ProviderProfile) (d : OAuthDraws) (db after : Db)
    → get_account name profile.provider_user_id db.accounts ≡ none
    → create_linked u name profile d db ≡ (ok v, after)
    → Linked name profile v.id after
unfolding create_linked
create_linked-Linked u v name profile d db after free h =
    let (_, db1, made, rest1) = >>=-ok (create_user storage_failure d.base.same_email u) _ db h in
    let (_, db2, put, rest2) = >>=-ok (upsert_account (account_of u name profile d)) _ db1 rest1 in
    let (_, db3, staged, rest3) = >>=-ok (stage_created _) _ db2 rest2 in
    let before =
      of_kept (create_user storage_failure d.base.same_email u) (create_user-Keeps _ _ u) db db1 _
        made in
    let later = of_kept (stage_created _) (stage_created-Keeps _) db2 db3 _ staged in
    let row = upsert_account-links (account_of u name profile d) db1 db2 (rw before free) put in
    (account_of u name profile d, ground (arith, row, later, rest3), ground (arith, rest3))

created-Linked :
    (c : NewUser) (v : User) (name : String) (profile : ProviderProfile) (d : OAuthDraws)
    (db after : Db)
    → get_account name profile.provider_user_id db.accounts ≡ none
    → (valid_profile c >>= λ u. create_linked (record u { id = d.user_id }) name profile d) db
      ≡ (ok v, after)
    → Linked name profile v.id after
created-Linked (refused e) v name profile d db after free h = absurd (ground (arith, h))
created-Linked (fine u) v name profile d db after free h =
    create_linked-Linked (record u { id = d.user_id }) v name profile d db after free h

user_by_email-Linked :
    (o : Option User) (v : User) (name : String) (profile : ProviderProfile) (d : OAuthDraws)
    (db after : Db)
    → get_account name profile.provider_user_id db.accounts ≡ none
    → user_by_email o name profile d db ≡ (ok v, after)
    → Linked name profile v.id after
unfolding user_by_email
user_by_email-Linked (some u) v name profile d db after free h =
    let (_, db1, put, rest) = >>=-ok (upsert_account (account_of u name profile d)) _ db h in
    let row = upsert_account-links (account_of u name profile d) db db1 free put in
    (account_of u name profile d, ground (arith, row, rest), ground (arith, rest))
user_by_email-Linked none v name profile d db after free h =
    created-Linked (new_user d.lower d.base.now (new_params profile)) v name profile d db after free
      h

abbrev pub Keyed : List (String × User) → Type 0
Keyed users = (id : String) (u : User) → lookup id users ≡ some u → u.id ≡ id

pub user_of_account-Linked :
    (o : Option OAuthAccount) (v : User) (name : String) (profile : ProviderProfile)
    (d : OAuthDraws) (db after : Db)
    → Keyed db.users
    → get_account name profile.provider_user_id db.accounts ≡ o
    → user_of_account o name profile d db ≡ (ok v, after)
    → Linked name profile v.id after
unfolding user_of_account
user_of_account-Linked (some a) v name profile d db after keys found h =
    let (there, same) = or_fail-ok linked_user_missing (lookup a.user_id db.users) db h in
    (
      a,
      subst (λ (x : Db). get_account name profile.provider_user_id x.accounts ≡ some a) same found,
      sym (keys a.user_id v there),
    )
user_of_account-Linked none v name profile d db after keys free h =
    user_by_email-Linked (get_by_email d.base.same_email profile.email db.users) v name profile d db
      after free h
