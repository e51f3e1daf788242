-- ===== src/RoomService/Model.antt =====
-- apps/room-service/internal/domain: room.go and permissions.go. The slug is not generated here:
-- it depends on a random suffix, and comes as an argument.
use vibe_sync.Base.{
  ℕ, ◌+◌, ◌/◌, ◌%◌, Bool, true, false, not, ◌&&◌, ◌||◌, Option, none, some, String, ℤ, pos, ltb_ℤ,
  ltb, leb, ◌==◌, List, [], ◌∷◌, if◌then◌else◌,
}

-- A name: code points.
abbrev pub Name : Type 0
Name = List ℕ

unfoldable pub name_eq : Name → Name → Bool
name_eq [] [] = true
name_eq (x ∷ xs) (y ∷ ys) = let rest = name_eq xs ys in x == y && rest
name_eq _ _ = false

pub data RoomVisibility : Type 0 where
  unspecified public unlisted private : RoomVisibility

-- Roles are the numbers of the proto enum, which the wire leaves open.
abbrev pub guest : ℤ
guest = pos 1

abbrev pub member : ℤ
member = pos 2

abbrev pub moderator : ℤ
moderator = pos 3

abbrev pub owner : ℤ
owner = pos 4

abbrev pub eq_role : ℤ → ℤ → Bool
eq_role a b = not (ltb_ℤ a b || ltb_ℤ b a)

pub record Room : Type 0 where
  pub id : String
  pub slug : Name
  pub name : Name
  pub description : Name
  pub visibility : RoomVisibility
  pub owner_id : String
  pub max_members : ℤ
  pub member_count : ℤ
  pub created_at : ℤ
  pub updated_at : ℤ

pub record Member : Type 0 where
  pub room_id : String
  pub user_id : String
  pub role : ℤ
  pub joined_at : ℤ

-- `unicode.IsSpace`.
abbrev is_space : ℕ → Bool
is_space c =
    leb 9 c && leb c 13
    || (c == 32
        || (c == 133
            || (c == 160
                || (c == 5760
                    || (leb 8192 c && leb c 8202
                        || (c == 8232
                            || (c == 8233 || (c == 8239 || (c == 8287 || c == 12288)))))))))

trim_left : Name → Name
trim_left [] = []
trim_left (c ∷ cs) = let rest = trim_left cs in if is_space c then rest else c ∷ cs

trim_right : Name → Name
trim_right [] = []
trim_right (c ∷ cs) = elim (trim_right cs) [
  | [] ↦ (if is_space c then [] else c ∷ [])
  | d ∷ ds ↦ c ∷ d ∷ ds
]

-- `strings.TrimSpace`.
unfoldable pub trim_space : Name → Name
unfolding trim_left trim_right
trim_space s = trim_right (trim_left s)

-- `len`: the bytes of the UTF-8 form.
unfoldable pub byte_length : Name → ℕ
byte_length [] = 0
byte_length (c ∷ cs) =
    let rest = byte_length cs in
    if ltb c 128
    then 1 + rest
    else if ltb c 2048
    then 2 + rest
    else if ltb c 65536
    then 3 + rest
    else 4 + rest

pub data RoomNameError : Type 0 where
  empty too_long : RoomNameError

abbrev pub visible_or_public : RoomVisibility → RoomVisibility
visible_or_public RoomVisibility.unspecified = public
visible_or_public v = v

-- A positive value that is there, else the other one.
abbrev pub positive_or : Option ℤ → ℤ → ℤ
positive_or none d = d
positive_or (some n) d = if ltb_ℤ (pos 0) n then n else d

pub data Checked : Type 0 where
  fine : Room → Checked
  refused : RoomNameError → Checked

abbrev no_name : Name → Bool
no_name [] = true
no_name (c ∷ cs) = false

unfoldable pub new_room :
    ℤ → String → String → Name → Name → RoomVisibility → Option ℤ → (Name → Name) → Checked
new_room now id owner_id name description visibility max_members slug_of =
    let trimmed = trim_space name in
    let room : Room = record {
      id = id;
      slug = slug_of trimmed;
      name = trimmed;
      description = trim_space description;
      visibility = visible_or_public visibility;
      owner_id = owner_id;
      max_members = positive_or max_members (pos 50);
      member_count = pos 0;
      created_at = now;
      updated_at = now;
    } in
    if no_name trimmed
    then refused empty
    else if ltb 100 (byte_length trimmed)
    then refused too_long
    else fine room

unfoldable pub is_full : Room → Bool
is_full r = not (ltb_ℤ r.member_count r.max_members)

abbrev pub requires_invite : Room → Bool
requires_invite r = elim r.visibility [
  | RoomVisibility.unspecified ↦ false
  | public ↦ false
  | unlisted ↦ false
  | private ↦ true
]

renamed : Option Name → (Name → Name) → Room → Room
renamed none slug_of r = r
renamed (some n) slug_of r = elim (trim_space n) [
  | [] ↦ r
  | c ∷ cs ↦ record r { name = c ∷ cs; slug = slug_of (c ∷ cs) }
]

described : Option Name → Room → Room
described none r = r
described (some d) r = record r { description = trim_space d }

shown : Option RoomVisibility → Room → Room
shown none r = r
shown (some RoomVisibility.unspecified) r = r
shown (some v) r = record r { visibility = v }

unfoldable pub apply_update :
    ℤ → Option Name → Option Name → Option RoomVisibility → Option ℤ → (Name → Name) → Room → Room
unfolding renamed described shown
apply_update now name description visibility max_members slug_of r =
    let s = shown visibility (described description (renamed name slug_of r)) in
    record s { max_members = positive_or max_members s.max_members; updated_at = now }

unfoldable pub can_kick : ℤ → ℤ → Bool
can_kick by target =
    if eq_role target owner
    then false
    else if eq_role by owner
    then true
    else if eq_role by moderator
    then ltb_ℤ target moderator
    else false

unfoldable pub can_promote : ℤ → ℤ → Bool
can_promote by new_role =
    if not (eq_role by owner)
    then false
    else if eq_role new_role owner || eq_role new_role (pos 0)
    then false
    else true

-- A set of grants: the bitmask, as a number.
abbrev pub Permissions : Type 0
Permissions = ℕ

-- `1 << iota`, by the number of the proto enum; no bit for any other number.
unfoldable pub perm_by_proto : ℕ → Permissions
perm_by_proto v =
    if v == 1
    then 1
    else if v == 2
    then 2
    else if v == 3
    then 4
    else if v == 4
    then 8
    else if v == 5
    then 16
    else 0

-- `p & bit != 0`, and `p | bit`, where `bit` is a power of two or 0.
abbrev pub has_bit : Permissions → ℕ → Bool
has_bit p bit = if bit == 0 then false else p / bit % 2 == 1

abbrev pub set_bit : Permissions → ℕ → Permissions
set_bit p bit = if has_bit p bit then p else p + bit

unfoldable pub permissions_from_proto : List ℕ → Permissions → Permissions
permissions_from_proto [] out = out
permissions_from_proto (v ∷ vs) out = permissions_from_proto vs (set_bit out (perm_by_proto v))

abbrev pub listed : Permissions → ℕ → List ℕ → List ℕ
listed p v rest = if has_bit p (perm_by_proto v) then v ∷ rest else rest

unfoldable pub to_proto : Permissions → List ℕ
to_proto p = listed p 1 (listed p 2 (listed p 3 (listed p 4 (listed p 5 []))))
