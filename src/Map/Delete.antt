-- ===== src/Map/Delete.antt =====
-- map_del() (src/data/src/map.c) of an item with at most one child, as a deletion in the tree that
-- the pointers form.
use mathlib.Core.Path.{subst}
use tcp_striper.Base.{
  ℕ, zero, suc, ◌≤◌, ◌≡◌, refl, sym, ap, ◌∙◌, Bool, true, false, Option, none, some, is_some,
  if_false, arith,
}
use tcp_striper.Run.{Run, ok, Returns, Returns-bind, Returns-value}
use tcp_striper.Map.{
  MapHead, Slot, root_slot, left_slot, right_slot, Compared, below, same, above, read, set_item,
  same_item, unlinked, unlink, delete_at, find_loop, map_del,
}
use tcp_striper.Map.Find.{Tree, leaf, node, size, Forms, lookup, find_loop-lookup}
use tcp_striper.Map.Link.{Distinct, this_item}
use tcp_striper.Map.Zipper.{Up, top, from_left, from_right, plug, slot_of, parent_of}
use tcp_striper.Map.Unlink.{graft, IsSingle, unlink-Forms}

module _ (comp : ℕ → ℕ → Compared) (key : ℕ) where
  -- Where a search for `key` ends: the way up, and the tree that is there.
  abbrev pub way_to : Up → Tree → Up × Tree
  way_to up leaf = (up, leaf)
  way_to up (node l a r) = elim (comp key a) [
    | same ↦ (up, node l a r)
    | below ↦ way_to (from_left a r up) l
    | above ↦ way_to (from_right l a up) r
  ]

  -- The tree without the item that a search for `key` ends at.
  abbrev pub delete : Tree → Tree
  delete leaf = leaf
  delete (node l a r) = elim (comp key a) [
    | same ↦ graft l r
    | below ↦ node (delete l) a r
    | above ↦ node l a (delete r)
  ]

  abbrev cut_root : Tree → Tree
  cut_root leaf = leaf
  cut_root (node l a r) = graft l r

  -- Where the search ends, the tree is the whole one, and without its item the rest.
  abbrev Ends : Up → Tree → Tree → Option ℕ → Up × Tree → Type 0
  Ends up t t' found (w, u) =
      (plug w u ≡ plug up t)
      × (plug w (cut_root u) ≡ plug up t')
      × ((a : ℕ) → found ≡ some a → (l : Tree) × (r : Tree) × (u ≡ node l a r))

  way_to-Ends : (up : Up) (t : Tree) → Ends up t (delete t) (lookup comp key t) (way_to up t)
  way_to-Ends up leaf = (refl, refl, λ a e. cc)
  way_to-Ends up (node l a r) =
      by_order (way_to-Ends (from_left a r up) l) (way_to-Ends (from_right l a up) r) (comp key a)
    where
      by_order :
          Ends (from_left a r up) l (delete l) (lookup comp key l) (way_to (from_left a r up) l)
          → Ends (from_right l a up) r (delete r) (lookup comp key r) (way_to (from_right l a up) r)
          → (o : Compared)
          → Ends up
              (node l a r)
              (elim o [
                | same ↦ graft l r
                | below ↦ node (delete l) a r
                | above ↦ node l a (delete r)
              ])
              (elim o [ same ↦ some a | below ↦ lookup comp key l | above ↦ lookup comp key r ])
              (elim o [
                | same ↦ (up, node l a r)
                | below ↦ way_to (from_left a r up) l
                | above ↦ way_to (from_right l a up) r
              ])
      by_order left right same = (refl, refl, λ b e. (l, r, cc))
      by_order left right below = left
      by_order left right above = right

  abbrev Spot : Up × Tree → Run (Slot × Option ℕ) → Type 0
  Spot w r = Returns (λ (s : Slot × Option ℕ). s.0 ≡ slot_of w.0) r

  find_loop-way_to :
      (fuel : ℕ) (m : MapHead) (up : Up) (t : Tree)
      → Forms m (read m (slot_of up)) (parent_of up) t
      → size t ≤ fuel
      → Spot (way_to up t) (find_loop comp fuel m key (slot_of up) (parent_of up))
  unfolding find_loop
  find_loop-way_to zero m up leaf h enough =
      rw (if_false (is_some (read m (slot_of up))) _ (ap is_some h)) refl
  find_loop-way_to zero m up (node l a r) h enough = absurd (omega arith)
  find_loop-way_to (suc fuel) m up leaf h enough = rw (Returns, h) refl
  find_loop-way_to (suc fuel) m up (node l a r) (here, parent, left, right) enough =
      rw (Returns, here)
        (by_order (find_loop-way_to fuel m (from_left a r up) l left (omega arith))
          (find_loop-way_to fuel m (from_right l a up) r right (omega arith)) (comp key a))
    where
      by_order :
          Spot (way_to (from_left a r up) l) (find_loop comp fuel m key (left_slot a) (some a))
          → Spot (way_to (from_right l a up) r) (find_loop comp fuel m key (right_slot a) (some a))
          → (o : Compared)
          → Spot
              (elim o [
                | same ↦ (up, node l a r)
                | below ↦ way_to (from_left a r up) l
                | above ↦ way_to (from_right l a up) r
              ])
              (elim o [
                | same ↦ ok (slot_of up, none)
                | below ↦ find_loop comp fuel m key (left_slot a) (some a)
                | above ↦ find_loop comp fuel m key (right_slot a) (some a)
              ])
      by_order in_l in_r same = refl
      by_order in_l in_r below = in_l
      by_order in_l in_r above = in_r

  -- What a deletion comes to, by whether the search for the item ends at it.
  abbrev pub Deletes : MapHead → Tree → Bool → Run (MapHead × Option ℕ) → Type 0
  Deletes m t true r =
      Returns
        (λ (q : MapHead × Option ℕ).
          (q.1 ≡ some key) × Forms q.0 (q.0).root none (delete t) × ((q.0).items key ≡ unlinked))
        r
  Deletes m t false r = r ≡ ok (m, none)

  at_item :
      (fuel : ℕ) (m : MapHead) (t : Tree) (w : Up) (l r : Tree)
      → Forms m m.root none t
      → Distinct t
      → plug w (node l key r) ≡ t
      → plug w (graft l r) ≡ delete t
      → IsSingle (node l key r)
      → Deletes m t true (delete_at fuel m key (slot_of w) true)
  unfolding delete_at
  at_item fuel m t w l r f d whole cut single =
      Returns-bind _ _ (unlink fuel m (slot_of w) key (m.items key).l (m.items key).r) _
        (unlink-Forms m w key fuel l r single (subst (λ u. Forms m m.root none u) (sym whole) f)
          (subst (λ u. Distinct u) (sym whole) d))
        (λ m1 h. (
          refl,
          subst (λ u. Forms (set_item m1 key unlinked) m1.root none u) cut h,
          this_item m1 key unlinked,
        ))

  same_item→eq : (x : Option ℕ) → same_item x key ≡ true → x ≡ some key
  same_item→eq none e = cc
  same_item→eq (some b) e = ground arith

  -- When the pointers of a map form a tree in which no item is twice, and the item at which
  -- the search for the given one ends has at most one child, map_del() on fuel for as many
  -- rounds as there are items comes to an end; if the search ends at the item itself it is
  -- returned, its pointers are NULL, and the other pointers form the tree without it, each
  -- item with its parent; if not, NULL is returned and the map is as it was.
  pub map_del-delete :
      (fuel : ℕ) (m : MapHead) (t : Tree)
      → Forms m m.root none t
      → Distinct t
      → size t ≤ fuel
      → IsSingle (way_to top t).1
      → Deletes m t (same_item (lookup comp key t) key) (map_del comp fuel m key)
  unfolding map_del delete_at
  map_del-delete fuel m t f d enough single =
      let (s, made, spot) =
        Returns-value (λ (s : Slot × Option ℕ). s.0 ≡ slot_of (way_to top t).0)
          (find_loop comp fuel m key root_slot none) (find_loop-way_to fuel m top t f enough) in
      let found = rw made at (find_loop-lookup comp fuel m key root_slot none t f enough) in
      rw (made, found, spot)
        (by_found (way_to top t).0 (way_to top t).1 (way_to-Ends top t) single
          (same_item (lookup comp key t) key) refl)
    where
      by_found :
          (w : Up) (u : Tree)
          → Ends top t (delete t) (lookup comp key t) (w, u)
          → IsSingle u
          → (b : Bool) → same_item (lookup comp key t) key ≡ b
          → Deletes m t b (delete_at fuel m key (slot_of w) b)
      by_found w u (whole, cut, at_root) single false e = refl
      by_found w u (whole, cut, at_root) single true e =
          let (l, r, shape) = at_root key (same_item→eq (lookup comp key t) e) in
          at_item fuel m t w l r f d (ap (plug w) (sym shape) ∙ whole)
            (ap (λ x. plug w (cut_root x)) (sym shape) ∙ cut) (subst IsSingle shape single)
