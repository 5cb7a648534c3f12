-- ===== src/Map/Add.antt =====
-- map_add() (src/data/src/map.c) as an insertion in the tree that the pointers form.
use mathlib.Core.Path.{subst}
use tcp_striper.Base.{
  ℕ, zero, suc, ◌≤◌, ◌≡◌, ◌≢◌, refl, sym, ap, ◌∙◌, Option, none, some, is_some, arith, if_false,
}
use tcp_striper.Run.{Run, ok, Returns, Returns-value, Returns-imp}
use tcp_striper.Map.{
  MapHead, MapItem, Slot, root_slot, left_slot, right_slot, Compared, below, same, above, read,
  write, link, find_loop, map_add,
}
use tcp_striper.Map.Find.{Tree, leaf, node, size, Forms, lookup, find_loop-lookup}
use tcp_striper.Map.Link.{
  Apart, Disjoint, Distinct, SlotApart, NotIn, this_item, slot_apart, read-linked, read_elsewhere,
  parent_kept, Forms-kept,
}

module _ (comp : ℕ → ℕ → Compared) (key : ℕ) where
  -- The tree with `key` where a search for it ends, if it is not found.
  abbrev pub insert : Tree → Tree
  insert leaf = node leaf key leaf
  insert (node l a r) = elim (comp key a) [
    | same ↦ node l a r
    | below ↦ node (insert l) a r
    | above ↦ node l a (insert r)
  ]

  module _ (m : MapHead) where
    -- A search from slot `p`, where `t` hangs, has ended at `s`: other slots outside the tree are
    -- not `s`; trees that have nothing in common with it do not hold `s`; and linking there makes
    -- `t'` of the tree, if nothing was `found`.
    record Ends (p : Slot) (q : Option ℕ) (t t' : Tree) (found : Option ℕ) (s : Slot × Option ℕ)
        : Type 0 where
      pub away : (o : Slot) → o ≢ p → SlotApart o t → o ≢ s.0
      pub outside : (u : Tree) → SlotApart p u → Disjoint t u → SlotApart s.0 u
      pub linked :
          found ≡ none
          → SlotApart p t
          → NotIn p key
          → Apart key t
          → Distinct t
          → Forms m (read m p) q t
          → Forms (link m s.0 s.1 key) (read (link m s.0 s.1 key) p) q t'

    at_leaf : (p : Slot) (q : Option ℕ) → Ends p q leaf (insert leaf) none (p, q)
    at_leaf p q = record {
      away = λ o n h. n;
      outside = λ u h d. h;
      linked = λ f sp np ka dt h.
          let item = this_item (write m p (some key)) key (record { l = none; r = none; p = q }) in
          (
            read-linked m p q key np,
            ap (λ (i : MapItem). i.p) item,
            ap (λ (i : MapItem). i.l) item,
            ap (λ (i : MapItem). i.r) item,
          );
    }

    at_same :
        (p : Slot) (q : Option ℕ) (l r : Tree) (a : ℕ)
        → Ends p q (node l a r) (node l a r) (some a) (p, none)
    at_same p q l r a = record { away = λ o n h. n; outside = λ u h d. h; linked = λ f. cc }

    left_not_right : (a b : ℕ) → left_slot a ≢ right_slot b
    left_not_right a b e = cc

    slot_not : (p : Slot) (a : ℕ) → NotIn p a → (p ≢ left_slot a) × (p ≢ right_slot a)
    slot_not root_slot a h = (λ e. cc, λ e. cc)
    slot_not (left_slot b) a h = (λ e. h cc, λ e. cc)
    slot_not (right_slot b) a h = (λ e. cc, λ e. h cc)

    at_below :
        (p : Slot) (q : Option ℕ) (l r : Tree) (a : ℕ) (found : Option ℕ) (s : Slot × Option ℕ)
        → Ends (left_slot a) (some a) l (insert l) found s
        → Ends p q (node l a r) (node (insert l) a r) found s
    at_below p q l r a found s end = record {
      away = λ o n h.
          let (not_in, in_l, in_r) = slot_apart o l r a h in
          end.away o (slot_not o a not_in).0 in_l;
      outside = λ u h d. end.outside u d.0 d.1;
      linked = λ f sp np ka dt h.
          let (not_in, in_l, in_r) = slot_apart p l r a sp in
          let after = link m s.0 s.1 key in
          let key_apart : a ≢ key = λ e. ka.0 (sym e) in
          let below_here = end.linked f dt.0.0 key_apart ka.1 dt.2.0 h.2 in
          let beside : (after.items a).r ≡ (m.items a).r =
            read_elsewhere m s.0 s.1 key (right_slot a)
              (end.away (right_slot a) (λ e. left_not_right a a (sym e)) dt.0.0) key_apart in
          let other_side =
            subst (λ y. Forms after y (some a) r) (sym beside)
              (Forms-kept m s.0 s.1 key (m.items a).r (some a) r ka.2 (end.outside r dt.0.1 dt.1.0)
                h.3) in
          (
            read_elsewhere m s.0 s.1 key p (end.away p (slot_not p a not_in).0 in_l) np ∙ h.0,
            parent_kept m s.0 s.1 key a key_apart ∙ h.1,
            below_here,
            other_side,
          );
    }

    at_above :
        (p : Slot) (q : Option ℕ) (l r : Tree) (a : ℕ) (found : Option ℕ) (s : Slot × Option ℕ)
        → Ends (right_slot a) (some a) r (insert r) found s
        → Ends p q (node l a r) (node l a (insert r)) found s
    at_above p q l r a found s end = record {
      away = λ o n h.
          let (not_in, in_l, in_r) = slot_apart o l r a h in
          end.away o (slot_not o a not_in).1 in_r;
      outside = λ u h d. end.outside u d.0 d.2;
      linked = λ f sp np ka dt h.
          let (not_in, in_l, in_r) = slot_apart p l r a sp in
          let after = link m s.0 s.1 key in
          let key_apart : a ≢ key = λ e. ka.0 (sym e) in
          let below_here = end.linked f dt.0.1 key_apart ka.2 dt.2.1 h.3 in
          let beside : (after.items a).l ≡ (m.items a).l =
            read_elsewhere m s.0 s.1 key (left_slot a)
              (end.away (left_slot a) (left_not_right a a) dt.0.1) key_apart in
          let other_side =
            subst (λ y. Forms after y (some a) l) (sym beside)
              (Forms-kept m s.0 s.1 key (m.items a).l (some a) l ka.1 (end.outside l dt.0.0 dt.1.1)
                h.2) in
          (
            read_elsewhere m s.0 s.1 key p (end.away p (slot_not p a not_in).1 in_r) np ∙ h.0,
            parent_kept m s.0 s.1 key a key_apart ∙ h.1,
            other_side,
            below_here,
          );
    }

    abbrev Branches :
        Slot
        → Option ℕ
        → Tree
        → Run (Slot × Option ℕ)
        → ℕ
        → Tree
        → Run (Slot × Option ℕ)
        → Compared
        → Type 0
    Branches p q l go_left a r go_right o =
        Returns
          (λ (s : Slot × Option ℕ).
            Ends p q (node l a r)
              (elim o [
                | same ↦ node l a r
                | below ↦ node (insert l) a r
                | above ↦ node l a (insert r)
              ])
              (elim o [ same ↦ some a | below ↦ lookup comp key l | above ↦ lookup comp key r ]) s)
          (elim o [ same ↦ ok (p, none) | below ↦ go_left | above ↦ go_right ])

    by_order :
        (p : Slot) (q : Option ℕ) (l r : Tree) (a : ℕ) (go_left go_right : Run (Slot × Option ℕ))
        → Returns (Ends (left_slot a) (some a) l (insert l) (lookup comp key l)) go_left
        → Returns (Ends (right_slot a) (some a) r (insert r) (lookup comp key r)) go_right
        → (o : Compared) → Branches p q l go_left a r go_right o
    by_order p q l r a go_left go_right left right same = at_same p q l r a
    by_order p q l r a go_left go_right left right below =
        Returns-imp _ _ go_left left (λ s end. at_below p q l r a (lookup comp key l) s end)
    by_order p q l r a go_left go_right left right above =
        Returns-imp _ _ go_right right (λ s end. at_above p q l r a (lookup comp key r) s end)

    find_loop-Ends :
        (fuel : ℕ) (p : Slot) (q : Option ℕ) (t : Tree)
        → Forms m (read m p) q t
        → size t ≤ fuel
        → Returns (Ends p q t (insert t) (lookup comp key t)) (find_loop comp fuel m key p q)
    unfolding find_loop
    find_loop-Ends zero p q leaf h enough =
        rw (if_false (is_some (read m p)) _ (ap is_some h)) (at_leaf p q)
    find_loop-Ends zero p q (node l a r) h enough = absurd (omega arith)
    find_loop-Ends (suc fuel) p q leaf h enough = rw (Returns, h) (at_leaf p q)
    find_loop-Ends (suc fuel) p q (node l a r) (here, parent, left, right) enough =
        rw (Returns, here)
          (by_order p q l r a _ _ (find_loop-Ends fuel (left_slot a) (some a) l left (omega arith))
            (find_loop-Ends fuel (right_slot a) (some a) r right (omega arith)) (comp key a))

    abbrev Added : Tree → MapHead × Option ℕ → Type 0
    Added t q =
        (q.1 ≡ lookup comp key t)
        × (q.1 ≡ none → Forms q.0 (q.0).root none (insert t))
        × (q.1 ≢ none → q.0 ≡ m)

    by_found :
        (t : Tree) (s : Slot × Option ℕ) (x : Option ℕ)
        → Forms m m.root none t
        → Apart key t
        → Distinct t
        → Ends root_slot none t (insert t) (lookup comp key t) s
        → lookup comp key t ≡ x
        → Added t (elim x [ some a ↦ (m, some a) | none ↦ (link m s.0 s.1 key, none) ])
    by_found t s none h apart distinct end e =
        (sym e, λ n. end.linked e tt tt apart distinct h, λ n. absurd (n refl))
    by_found t s (some a) h apart distinct end e = (sym e, λ n. cc, λ n. refl)

    -- When the pointers of a map form a tree in which no item is twice and the new item is
    -- not, map_add() on fuel for as many rounds as there are items comes to an end; it returns
    -- what the search for the item ends at; if that is NULL, the pointers form the tree with
    -- the item inserted, each item with its parent, and if not, the map is as it was.
    pub map_add-insert :
        (fuel : ℕ) (t : Tree)
        → Forms m m.root none t
        → size t ≤ fuel
        → Apart key t
        → Distinct t
        → Returns
            (λ (q : MapHead × Option ℕ).
              (q.1 ≡ lookup comp key t)
              × (q.1 ≡ none → Forms q.0 (q.0).root none (insert t))
              × (q.1 ≢ none → q.0 ≡ m))
            (map_add comp fuel m key)
    unfolding map_add
    map_add-insert fuel t h enough apart distinct =
        let (s, made, end) =
          Returns-value (Ends root_slot none t (insert t) (lookup comp key t))
            (find_loop comp fuel m key root_slot none)
            (find_loop-Ends fuel root_slot none t h enough) in
        let found = rw made at (find_loop-lookup comp fuel m key root_slot none t h enough) in
        rw (Returns, made, found) (by_found t s (lookup comp key t) h apart distinct end refl)
