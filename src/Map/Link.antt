-- ===== src/Map/Link.antt =====
-- The heap of src/data/src/map.c before and after an item is linked at a slot.
use tcp_striper.Base.{
  ℕ, ◌≡◌, ◌≢◌, refl, sym, ap, ◌∙◌, Option, some, Bool-cases, inl, inr, ◌==◌, arith, if_true,
  if_false,
}
use mathlib.Core.Path.{subst}
use tcp_striper.Map.{
  MapHead, MapItem, Slot, root_slot, left_slot, right_slot, read, write, set_item, link,
}
use tcp_striper.Map.Find.{Tree, leaf, node, Forms}

-- The item is not in the tree.
abbrev pub Apart : ℕ → Tree → Type 0
Apart b leaf = Unit {0}
Apart b (node l a r) = (b ≢ a) × Apart b l × Apart b r

abbrev pub Disjoint : Tree → Tree → Type 0
Disjoint leaf u = Unit {0}
Disjoint (node l a r) u = Apart a u × Disjoint l u × Disjoint r u

-- No item is there twice.
abbrev pub Distinct : Tree → Type 0
Distinct leaf = Unit {0}
Distinct (node l a r) =
    (Apart a l × Apart a r) × (Disjoint l r × Disjoint r l) × (Distinct l × Distinct r)

-- The item that a slot is in is not in the tree, or not the given one.
abbrev pub SlotApart : Slot → Tree → Type 0
SlotApart root_slot t = Unit {0}
SlotApart (left_slot a) t = Apart a t
SlotApart (right_slot a) t = Apart a t

abbrev pub NotIn : Slot → ℕ → Type 0
NotIn root_slot b = Unit {0}
NotIn (left_slot a) b = a ≢ b
NotIn (right_slot a) b = a ≢ b

-- Reading an item of a heap in which one has been set.
pub other_item :
    (m : MapHead) (a b : ℕ) (x : MapItem) → b ≢ a → (set_item m a x).items b ≡ m.items b
other_item m a b x apart = if_false (b == a) _ (ground arith)

pub this_item : (m : MapHead) (a : ℕ) (x : MapItem) → (set_item m a x).items a ≡ x
this_item m a x = if_true (a == a) _ (ground arith)

pub written : (m : MapHead) (s : Slot) (x : Option ℕ) → read (write m s x) s ≡ x
written m root_slot x = refl
written m (left_slot a) x = ap (λ (i : MapItem). i.l) (this_item m a _)
written m (right_slot a) x = ap (λ (i : MapItem). i.r) (this_item m a _)

-- A write changes no other item, and no parent.
pub write-items :
    (m : MapHead) (s : Slot) (x : Option ℕ) (b : ℕ) → NotIn s b → (write m s x).items b ≡ m.items b
write-items m root_slot x b h = refl
write-items m (left_slot a) x b h = other_item m a b _ (λ e. h (sym e))
write-items m (right_slot a) x b h = other_item m a b _ (λ e. h (sym e))

by_item : (a b : ℕ) (P : Type 0) → (a ≡ b → P) → (a ≢ b → P) → P
by_item a b P yes_case no_case = elim (Bool-cases (a == b)) [
  | inl e ↦ yes_case (ground arith)
  | inr e ↦ no_case (λ x. ground arith)
]

pub write-parent :
    (m : MapHead) (s : Slot) (x : Option ℕ) (b : ℕ) → ((write m s x).items b).p ≡ (m.items b).p
write-parent m root_slot x b = refl
write-parent m (left_slot a) x b =
    by_item b a _ (λ e. rw e (ap (λ (i : MapItem). i.p) (this_item m a _)))
      (λ n. ap (λ (i : MapItem). i.p) (other_item m a b _ n))
write-parent m (right_slot a) x b =
    by_item b a _ (λ e. rw e (ap (λ (i : MapItem). i.p) (this_item m a _)))
      (λ n. ap (λ (i : MapItem). i.p) (other_item m a b _ n))

pub read-write : (m : MapHead) (s p : Slot) (x : Option ℕ) → p ≢ s → read (write m s x) p ≡ read m p
read-write m root_slot root_slot x n = absurd (n refl)
read-write m root_slot (left_slot b) x n = refl
read-write m root_slot (right_slot b) x n = refl
read-write m (left_slot a) root_slot x n = refl
read-write m (left_slot a) (left_slot b) x n =
    ap (λ (i : MapItem). i.l) (other_item m a b _ (λ e. n (ap left_slot e)))
read-write m (left_slot a) (right_slot b) x n =
    by_item b a _ (λ e. rw e (ap (λ (i : MapItem). i.r) (this_item m a _)))
      (λ n. ap (λ (i : MapItem). i.r) (other_item m a b _ n))
read-write m (right_slot a) root_slot x n = refl
read-write m (right_slot a) (right_slot b) x n =
    ap (λ (i : MapItem). i.r) (other_item m a b _ (λ e. n (ap right_slot e)))
read-write m (right_slot a) (left_slot b) x n =
    by_item b a _ (λ e. rw e (ap (λ (i : MapItem). i.l) (this_item m a _)))
      (λ n. ap (λ (i : MapItem). i.l) (other_item m a b _ n))

pub read-set_item :
    (m : MapHead) (p : Slot) (a : ℕ) (x : MapItem) → NotIn p a → read (set_item m a x) p ≡ read m p
read-set_item m root_slot a x n = refl
read-set_item m (left_slot b) a x n = ap (λ (i : MapItem). i.l) (other_item m a b x n)
read-set_item m (right_slot b) a x n = ap (λ (i : MapItem). i.r) (other_item m a b x n)

pub slot_apart :
    (s : Slot) (l r : Tree) (a : ℕ)
    → SlotApart s (node l a r)
    → NotIn s a × SlotApart s l × SlotApart s r
slot_apart root_slot l r a h = (tt, tt, tt)
slot_apart (left_slot b) l r a h = h
slot_apart (right_slot b) l r a h = h

-- The heap once `item` is linked at `s`.
module _ (m : MapHead) (s : Slot) (q : Option ℕ) (item : ℕ) where
  abbrev pub after : MapHead
  after = link m s q item

  pub read-linked : NotIn s item → read after s ≡ some item
  read-linked n = read-set_item (write m s (some item)) s item _ n ∙ written m s (some item)

  pub read_elsewhere : (p : Slot) → p ≢ s → NotIn p item → read after p ≡ read m p
  read_elsewhere p other n =
      read-set_item (write m s (some item)) p item _ n ∙ read-write m s p (some item) other

  pub parent_kept : (b : ℕ) → b ≢ item → (after.items b).p ≡ (m.items b).p
  parent_kept b n =
      ap (λ (i : MapItem). i.p) (other_item (write m s (some item)) item b _ n)
      ∙ write-parent m s (some item) b

  item_kept : (b : ℕ) → b ≢ item → NotIn s b → after.items b ≡ m.items b
  item_kept b n other =
      other_item (write m s (some item)) item b _ n ∙ write-items m s (some item) b other

  -- A tree that the slot and the item are not in stays.
  pub Forms-kept :
      (x parent : Option ℕ) (t : Tree)
      → Apart item t
      → SlotApart s t
      → Forms m x parent t
      → Forms after x parent t
  Forms-kept x parent leaf ha hs h = h
  Forms-kept x parent (node l a r) ha hs (here, up, left, right) =
      let (not_in, in_l, in_r) = slot_apart s l r a hs in
      let kept = item_kept a (λ e. ha.0 (sym e)) not_in in
      (
        here,
        ap (λ (i : MapItem). i.p) kept ∙ up,
        subst (λ y. Forms after y (some a) l) (sym (ap (λ (i : MapItem). i.l) kept))
            (Forms-kept (m.items a).l (some a) l ha.1 in_l left),
        subst (λ y. Forms after y (some a) r) (sym (ap (λ (i : MapItem). i.r) kept))
            (Forms-kept (m.items a).r (some a) r ha.2 in_r right),
      )
