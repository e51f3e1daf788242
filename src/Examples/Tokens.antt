-- ===== src/Examples/Tokens.antt =====
-- Examples on refresh tokens. The hash of a validator is a fixed string.
use vibe_sync.Auth.Store.{
  User, Session, Result, with_tx, commit_or_rollback, mark_used_row, create_token, conflicts,
  update_where, update_last_seen, Db, err, reuse_detected, get_by_selector,
}
use vibe_sync.Base.{lookup, insert, refl, pos, ◌≡◌, arith, true, some, str_eq, [], ◌∷◌, All}
use vibe_sync.Auth.Tokens.{
  UserStatus, verify_validator, mark_used, new_refresh_token, cut_at_dot, text_eq,
  presentation_token, RefreshToken, used, active, compromised, Hasher, ValidatorMaterial,
  split_selector_validator, classify_use, rotate,
}
use vibe_sync.Auth.Refresh.{
  Tokens, rotate_checked, issue, act, Request, refresh_body, refresh_token,
}
use vibe_sync.Auth.Refresh.Rotation.{rotation_spends}
use vibe_sync.Auth.Refresh.Reuse.{reuse_rolled_back}

abbrev plain : Hasher
plain = record { hash = λ v. some "hash"; compare = λ h v. str_eq h "hash" }

abbrev first : RefreshToken
first = record {
  id = "t1";
  family_id = "f1";
  user_id = "u1";
  session_id = "s1";
  selector = 65 ∷ [];
  validator_hash = "hash";
  rotated_from = "";
  status = used;
  expires_at = pos 1000;
  created_at = pos 0;
  used_at = pos 10;
  revoked_at = pos 0;
}

abbrev second : RefreshToken
second = record first { id = "t2"; selector = 66 ∷ []; rotated_from = "t1"; status = active }

abbrev ann : User
ann = record {
  id = "u1";
  email = 97 ∷ 64 ∷ 98 ∷ [];
  username = 97 ∷ [];
  display_name = 65 ∷ [];
  avatar_url = [];
  password_hash = "hash";
  system_role = pos 2;
  status = UserStatus.active;
  created_at = pos 1;
  updated_at = pos 1;
}

abbrev db : Db
db = record {
  tokens = first ∷ second ∷ [];
  users = [];
  sessions = [];
  flows = [];
  accounts = [];
  provider_tokens = [];
  outbox = [];
}

abbrev request : Request
request = record {
  now = pos 20;
  new_id = "t3";
  selector_draw = some (67 ∷ []);
  validator_draw = some (68 ∷ []);
  access_token = λ u. some "jwt";
}

reuse_rolled_back_example :
    let statements = refresh_body plain (pos 500) (65 ∷ []) (90 ∷ []) request db in
    All (λ t. str_eq t.family_id "f1" ≡ true → t.status ≡ compromised) (statements.1).tokens
    × (refresh_token plain (pos 500) (65 ∷ b'.' ∷ 90 ∷ []) request db
        ≡ (err (reuse_detected "f1"), db))
unfolding split_selector_validator cut_at_dot get_by_selector text_eq verify_validator
reuse_rolled_back_example =
    reuse_rolled_back plain (pos 500) 65 (b'.' ∷ 90 ∷ []) (65 ∷ []) (90 ∷ []) request db first refl
      refl refl refl (ground arith)

abbrev material : ValidatorMaterial
material = record { selector = 65 ∷ []; validator = 90 ∷ [] }

abbrev live_session : Session
live_session = record {
  id = "s1";
  user_id = "u1";
  device_label = "";
  family_id = "f1";
  created_at = pos 0;
  last_seen_at = pos 0;
  expires_at = pos 900;
}

abbrev live_db : Db
live_db = record {
  tokens = first ∷ second ∷ [];
  users = ("u1", ann) ∷ [];
  sessions = ("s1", live_session) ∷ [];
  flows = [];
  accounts = [];
  provider_tokens = [];
  outbox = [];
}

abbrev rotated : Result (Session × Tokens) × Db
rotated = refresh_token plain (pos 500) (66 ∷ b'.' ∷ 90 ∷ []) request live_db

rotation_spends_example :
    (rt : RefreshToken) × (get_by_selector (66 ∷ []) live_db.tokens ≡ some rt)
    × (classify_use rt (pos 20) ≡ rotate)
    × (verify_validator plain rt (90 ∷ []) ≡ true)
    × (get_by_selector (66 ∷ []) (rotated.1).tokens ≡ some (mark_used (pos 20) rt))
unfolding split_selector_validator cut_at_dot get_by_selector text_eq verify_validator refresh_token
    with_tx commit_or_rollback refresh_body rotate_checked issue act classify_use lookup
    mark_used_row create_token conflicts update_where update_last_seen new_refresh_token insert
    presentation_token mark_used
rotation_spends_example =
    rotation_spends plain (pos 500) 66 (b'.' ∷ 90 ∷ []) (66 ∷ []) (90 ∷ []) request live_db
      (rotated.1)
      (
        record live_session { last_seen_at = pos 20 },
        record { access = "jwt"; refresh = 67 ∷ b'.' ∷ 68 ∷ [] },
      )
      refl refl
