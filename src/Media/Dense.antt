-- ===== src/Media/Dense.antt =====
-- A room's queue is numbered 0, 1, 2, ... in the order of the table, whatever its operations do.
use vibe_sync.Base.{
  ℕ, zero, suc, ◌+◌, ◌-◌, ◌<◌, ◌≤◌, ◌==◌, ltb, leb, ◌≡◌, ◌≢◌, refl, sym, ap, subst, inl, inr, Bool,
  false, ◌&&◌, ◌||◌, Bool-cases, String, str_eq, eq_iff, List, [], ◌∷◌, ◌++◌, length, arith,
  if◌then◌else◌, if_true, if_false,
}
use vibe_sync.Media.Queue.{QueueItem, larger, next_position, place, list, taken, delete_at}

-- The rows of a room, in the order of the table.
abbrev pub own : String → List QueueItem → List QueueItem
own room [] = []
own room (r ∷ rs) = let rest = own room rs in if str_eq r.room_id room then r ∷ rest else rest

abbrev pub media_of : List QueueItem → List String
media_of [] = []
media_of (r ∷ rs) = r.media_id ∷ media_of rs

abbrev pub IsDense : ℕ → List QueueItem → Type 0
IsDense k [] = Unit
IsDense k (r ∷ rs) = (r.position ≡ k) × IsDense (suc k) rs

-- Numbered from `c` on, without the number `p`.
abbrev pub Gap : ℕ → ℕ → List QueueItem → Type 0
Gap c p [] = Unit
Gap c p (r ∷ rs) = (r.position ≡ (if ltb c p then c else suc c)) × Gap (suc c) p rs

abbrev pub has : ℕ → List QueueItem → Bool
has p [] = false
has p (r ∷ rs) = r.position == p || has p rs

abbrev pub without : ℕ → List QueueItem → List QueueItem
without p [] = []
without p (r ∷ rs) = let rest = without p rs in if r.position == p then rest else r ∷ rest

-- The list without its entry number `n`.
abbrev pub drop_at : ℕ → List String → List String
drop_at n [] = []
drop_at zero (m ∷ ms) = ms
drop_at (suc n) (m ∷ ms) = m ∷ drop_at n ms

abbrev next_of : List QueueItem → ℕ
next_of [] = 0
next_of (r ∷ rs) = larger (suc r.position) (next_of rs)

pub own-append :
    (room : String) (xs ys : List QueueItem) → own room (xs ++ ys) ≡ own room xs ++ own room ys
own-append room [] ys = refl
own-append room (x ∷ xs) ys = elim (Bool-cases (str_eq x.room_id room)) [
  | inl t ↦ rw t (ap (λ zs. x ∷ zs) (own-append room xs ys))
  | inr f ↦ rw f (own-append room xs ys)
]

pub media_of-append : (xs ys : List QueueItem) → media_of (xs ++ ys) ≡ media_of xs ++ media_of ys
media_of-append [] ys = refl
media_of-append (x ∷ xs) ys = ap (λ zs. x.media_id ∷ zs) (media_of-append xs ys)

pub length-media_of : (xs : List QueueItem) → length (media_of xs) ≡ length xs
length-media_of [] = refl
length-media_of (x ∷ xs) = ap suc (length-media_of xs)

next_position-own :
    (room : String) (rows : List QueueItem) → next_position room rows ≡ next_of (own room rows)
unfolding next_position
next_position-own room [] = refl
next_position-own room (r ∷ rs) = ground (arith, next_position-own room rs)

next_of-IsDense :
    (k : ℕ) (xs : List QueueItem) → IsDense k xs → larger k (next_of xs) ≡ k + length xs
next_of-IsDense k [] h = ground arith
next_of-IsDense k (x ∷ xs) h = ground (arith, next_of-IsDense (suc k) xs h.1)

pub next_position-IsDense :
    (room : String) (rows : List QueueItem)
    → IsDense 0 (own room rows)
    → next_position room rows ≡ length (own room rows)
next_position-IsDense room rows h =
    ground (arith, next_position-own room rows, next_of-IsDense 0 (own room rows) h)

pub snoc-IsDense :
    (k : ℕ) (xs : List QueueItem) (x : QueueItem)
    → IsDense k xs
    → x.position ≡ k + length xs
    → IsDense k (xs ++ x ∷ [])
snoc-IsDense k [] x h e = (omega arith, tt)
snoc-IsDense k (y ∷ xs) x h e = (h.0, snoc-IsDense (suc k) xs x h.1 (omega arith))

place-first :
    (k : ℕ) (x : QueueItem) (xs : List QueueItem)
    → x.position ≡ k
    → IsDense (suc k) xs
    → place x xs ≡ x ∷ xs
place-first k x [] e h = refl
place-first k x (y ∷ xs) e h = ground arith

-- `ORDER BY position` gives the rows in the order of the table.
pub list-IsDense :
    (room : String) (k : ℕ) (rows : List QueueItem)
    → IsDense k (own room rows)
    → list room rows ≡ own room rows
unfolding list
list-IsDense room k [] h = refl
list-IsDense room k (r ∷ rs) h = elim (Bool-cases (str_eq r.room_id room)) [
  | inl t ↦
      let (at, rest) : IsDense k (r ∷ own room rs) =
        subst (λ xs. IsDense k xs) (sym (if_true (r ∷ own room rs) (own room rs) t)) h in
      rw (t, list-IsDense room (suc k) rs rest) (place-first k r (own room rs) at rest)
  | inr f ↦
      let rest : IsDense k (own room rs) =
        subst (λ xs. IsDense k xs) (sym (if_false (r ∷ own room rs) (own room rs) f)) h in
      rw f (list-IsDense room k rs rest)
]

pub taken-own :
    (room : String) (p : ℕ) (rows : List QueueItem) → taken room p rows ≡ has p (own room rows)
taken-own room p [] = refl
taken-own room p (r ∷ rs) = ground (arith, taken-own room p rs)

pub has-IsDense :
    (p k : ℕ) (xs : List QueueItem) → IsDense k xs → has p xs ≡ leb k p && ltb p (k + length xs)
has-IsDense p k [] h = ground arith
has-IsDense p k (x ∷ xs) h = ground (arith, has-IsDense p (suc k) xs h.1)

pub has-Gap : (q c p : ℕ) (xs : List QueueItem) → Gap c p xs → q < c → has q xs ≡ false
has-Gap q c p [] h l = refl
has-Gap q c p (x ∷ xs) h l = ground (arith, has-Gap q (suc c) p xs h.1 (omega arith))

pub delete_at-own :
    (room : String) (p : ℕ) (rows : List QueueItem)
    → let (found, rest) = delete_at room p rows in
      (found ≡ has p (own room rows)) × (own room rest ≡ without p (own room rows))
unfolding delete_at
delete_at-own room p [] = (refl, refl)
delete_at-own room p (r ∷ rs) = ground (arith, delete_at-own room p rs)

pub delete_at-other :
    (room other : String) (p : ℕ) (rows : List QueueItem)
    → other ≢ room
    → own other (delete_at room p rows).1 ≡ own other rows
unfolding delete_at
delete_at-other room other p [] n = refl
delete_at-other room other p (r ∷ rs) n =
    ground (arith, delete_at-other room other p rs n, eq_iff r.room_id room, eq_iff r.room_id other)

above-Gap :
    (c p : ℕ) (xs : List QueueItem) → p ≤ c → IsDense (suc c) xs → (without p xs ≡ xs) × Gap c p xs
above-Gap c p [] l h = (refl, tt)
above-Gap c p (x ∷ xs) l h =
    let (same, gap) = above-Gap (suc c) p xs (omega arith) h.1 in
    (ground (arith, same), (ground arith, gap))

pub without-Gap :
    (k p : ℕ) (xs : List QueueItem)
    → k ≤ p
    → IsDense k xs
    → Gap k p (without p xs) × (media_of (without p xs) ≡ drop_at (p - k) (media_of xs))
without-Gap k p [] l h = (tt, refl)
without-Gap k p (x ∷ xs) l h = elim (Bool-cases (x.position == p)) [
  | inl t ↦
      let here : p ≡ k = ground arith in
      let zero_at : p - k ≡ 0 = omega arith in
      let (same, gap) = above-Gap k p xs (omega arith) h.1 in rw (t, same, zero_at) (gap, refl)
  | inr f ↦
      let there : k < p = ground arith in
      let next : p - k ≡ suc (p - suc k) = omega arith in
      let (gap, media) = without-Gap (suc k) p xs (omega arith) h.1 in
      rw (f, next) ((ground arith, gap), ap (λ ms. x.media_id ∷ ms) media)
]
