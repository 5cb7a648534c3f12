-- ===== src/Map/Find.antt =====
-- map_find() (src/data/src/map.c) as a search in the tree that the pointers form.
use tcp_striper.Base.{ℕ, zero, suc, ◌+◌, ◌≤◌, ◌≡◌, ap, Option, none, some, is_some, arith, if_false}
use tcp_striper.Run.{Run, ok, Returns, Returns-value}
use tcp_striper.Map.{
  MapHead, Slot, root_slot, left_slot, right_slot, Compared, below, same, above, read, find_loop,
  map_find,
}

pub data Tree : Type 0 where
  leaf : Tree
  node : Tree → ℕ → Tree → Tree

-- The number of items.
abbrev pub size : Tree → ℕ
size leaf = 0
size (node l a r) = suc (size l + size r)

-- The pointers below `x` form the tree, each item with the parent that it has there.
abbrev pub Forms : MapHead → Option ℕ → Option ℕ → Tree → Type 0
Forms m x parent leaf = x ≡ none
Forms m x parent (node l a r) =
    (x ≡ some a)
    × ((m.items a).p ≡ parent)
    × Forms m (m.items a).l (some a) l
    × Forms m (m.items a).r (some a) r

module _ (comp : ℕ → ℕ → Compared) where
  -- The item that a search for `key` ends at.
  abbrev pub lookup : ℕ → Tree → Option ℕ
  lookup key leaf = none
  lookup key (node l a r) = elim (comp key a) [
    | same ↦ some a
    | below ↦ lookup key l
    | above ↦ lookup key r
  ]

  -- A search below `p`, where the tree `t` hangs. It ends at a slot that holds what is found, or at
  -- the free one where the key belongs.
  -- The two branches of a comparison, in the search and in the tree.
  abbrev Branches :
      MapHead
      → Slot
      → ℕ
      → Tree
      → Run (Slot × Option ℕ)
      → ℕ
      → Tree
      → Run (Slot × Option ℕ)
      → Compared
      → Type 0
  Branches m p key l go_left a r go_right o =
      Returns
        (λ (s : Slot × Option ℕ).
          read m s.0 ≡ elim o [ same ↦ some a | below ↦ lookup key l | above ↦ lookup key r ])
        (elim o [ same ↦ ok (p, none) | below ↦ go_left | above ↦ go_right ])

  by_order :
      (m : MapHead) (p : Slot) (key a : ℕ) (l r : Tree) (go_left go_right : Run (Slot × Option ℕ))
      → read m p ≡ some a
      → Returns (λ (s : Slot × Option ℕ). read m s.0 ≡ lookup key l) go_left
      → Returns (λ (s : Slot × Option ℕ). read m s.0 ≡ lookup key r) go_right
      → (o : Compared) → Branches m p key l go_left a r go_right o
  by_order m p key a l r go_left go_right here left right below = left
  by_order m p key a l r go_left go_right here left right same = here
  by_order m p key a l r go_left go_right here left right above = right

  pub find_loop-lookup :
      (fuel : ℕ) (m : MapHead) (key : ℕ) (p : Slot) (q : Option ℕ) (t : Tree)
      → Forms m (read m p) q t
      → size t ≤ fuel
      → Returns (λ (s : Slot × Option ℕ). read m s.0 ≡ lookup key t) (find_loop comp fuel m key p q)
  unfolding find_loop
  find_loop-lookup zero m key p q leaf h enough =
      rw (if_false (is_some (read m p)) _ (ap is_some h)) h
  find_loop-lookup zero m key p q (node l a r) h enough = absurd (omega arith)
  find_loop-lookup (suc fuel) m key p q leaf h enough = rw (Returns, h) h
  find_loop-lookup (suc fuel) m key p q (node l a r) (here, parent, left, right) enough =
      rw (Returns, here)
        (by_order m p key a l r _ _ here
          (find_loop-lookup fuel m key (left_slot a) (some a) l left (omega arith))
          (find_loop-lookup fuel m key (right_slot a) (some a) r right (omega arith)) (comp key a))

  -- When the pointers of a map form a tree, with each item's parent in it, map_find() on fuel
  -- for as many rounds as there are items comes to an end and returns the result of the search
  -- in that tree, for any comparison.
  pub map_find-lookup :
      (m : MapHead) (key fuel : ℕ) (t : Tree)
      → Forms m m.root none t
      → size t ≤ fuel
      → map_find comp fuel m key ≡ ok (lookup key t)
  unfolding map_find
  map_find-lookup m key fuel t forms enough =
      let ((p, q), made, found) =
        Returns-value (λ (s : Slot × Option ℕ). read m s.0 ≡ lookup key t)
          (find_loop comp fuel m key root_slot none)
          (find_loop-lookup fuel m key root_slot none t forms enough) in
      rw made (ap ok found)
