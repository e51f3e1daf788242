-- ===== src/Media/Renumbering.antt =====
-- The UPDATE of queue_repo.go closes the gap that a removed row leaves.
use vibe_sync.Media.Queue.{shifted, QueueItem}
use vibe_sync.Base.{
  ℕ, suc, ltb, ◌≡◌, ◌≢◌, refl, sym, ap, ◌∙◌, subst, inl, inr, true, false, Bool-cases, String,
  str_eq, eq_iff, List, [], ◌∷◌, ◌++◌, arith, if_true, if_false,
}
use vibe_sync.Media.Dense.{own, media_of, IsDense, Gap, own-append}

-- What a renumbering makes of the table: it ends well, closes the gap, and moves no other row.
pub record Renumbered (room : String) (ms : List String) (others : String → List QueueItem)
    (rows : List QueueItem) : Type 0 where
  pub dense : IsDense 0 (own room rows)
  pub media : media_of (own room rows) ≡ ms
  pub same : (other : String) → other ≢ room → own other rows ≡ others other

append_nil : {A : Type 0} → (xs : List A) → xs ++ [] ≡ xs
append_nil [] = refl
append_nil (x ∷ xs) = ap (λ ws. x ∷ ws) (append_nil xs)

pub own-snoc_in :
    (room : String) (rows : List QueueItem) (x : QueueItem)
    → str_eq x.room_id room ≡ true
    → own room (rows ++ x ∷ []) ≡ own room rows ++ x ∷ []
own-snoc_in room rows x t = own-append room rows (x ∷ []) ∙ rw t refl

pub own-snoc_out :
    (room : String) (rows : List QueueItem) (x : QueueItem)
    → str_eq x.room_id room ≡ false
    → own room (rows ++ x ∷ []) ≡ own room rows
own-snoc_out room rows x f = own-append room rows (x ∷ []) ∙ rw f (append_nil (own room rows))

pub shifted-Renumbered :
    (room : String) (c p : ℕ) (rows : List QueueItem)
    → Gap c p (own room rows)
    → (IsDense c (own room (shifted room p rows)))
      × (media_of (own room (shifted room p rows)) ≡ media_of (own room rows))
unfolding shifted
shifted-Renumbered room c p [] g = (tt, refl)
shifted-Renumbered room c p (r ∷ rs) g = elim (Bool-cases (str_eq r.room_id room)) [
  | inl t ↦
      let (at, gap) : Gap c p (r ∷ own room rs) =
        subst (λ xs. Gap c p xs) (sym (if_true (r ∷ own room rs) (own room rs) t)) g in
      let (dense, same) = shifted-Renumbered room (suc c) p rs gap in
      elim (Bool-cases (ltb p r.position)) [
        | inl up ↦
            rw (t, up) (rw t ((ground (arith, up, at), dense), ap (λ xs. r.media_id ∷ xs) same))
        | inr down ↦
            rw (t, down) (rw t ((ground (arith, down, at), dense), ap (λ xs. r.media_id ∷ xs) same))
      ]
  | inr f ↦
      let gap : Gap c p (own room rs) =
        subst (λ xs. Gap c p xs) (sym (if_false (r ∷ own room rs) (own room rs) f)) g in
      rw f (rw f (shifted-Renumbered room c p rs gap))
]

pub shifted-other :
    (room other : String) (p : ℕ) (rows : List QueueItem)
    → other ≢ room
    → own other (shifted room p rows) ≡ own other rows
unfolding shifted
shifted-other room other p [] n = refl
shifted-other room other p (r ∷ rs) n =
    ground (arith, eq_iff r.room_id room, eq_iff r.room_id other, shifted-other room other p rs n)
