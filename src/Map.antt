-- ===== src/Map.antt =====
-- src/data/src/map.c and map.h: a binary tree of items that point to each other. An item is a number,
-- its address; the pointers are in a heap, and a pointer to a pointer is a slot. The comparison
-- is a parameter. Loops run on fuel, and fail if there is none left when they are to go on.
pub mod Find
pub mod Zipper
pub mod Aside
pub mod Walk
pub mod Order
pub mod Cut
pub mod Unlink
pub mod Delete
pub mod Link
pub mod Add
pub mod Insert
pub mod RoundTrip
mod Tests
use tcp_striper.Base.{
  ℕ, zero, suc, Bool, true, false, ◌&&◌, Option, none, some, ◌==◌, if◌then◌else◌, is_some,
}
use tcp_striper.Run.{Run, ok, aborted, ◌>>=◌}

pub record MapItem : Type 0 where
  pub l : Option ℕ
  pub r : Option ℕ
  pub p : Option ℕ

-- `struct map_head`, and the items in the memory.
pub record MapHead : Type 0 where
  pub root : Option ℕ
  pub items : ℕ → MapItem

-- A `map_item **`: `&head->root`, `&q->l` or `&q->r`.
pub data Slot : Type 0 where
  root_slot : Slot
  left_slot right_slot : ℕ → Slot

-- A result of the comparison: below 0, 0, or above 0.
pub data Compared : Type 0 where
  below same above : Compared

abbrev pub read : MapHead → Slot → Option ℕ
read m root_slot = m.root
read m (left_slot a) = (m.items a).l
read m (right_slot a) = (m.items a).r

abbrev pub set_item : MapHead → ℕ → MapItem → MapHead
set_item m a item = record m { items = λ b. if b == a then item else m.items b }

abbrev pub write : MapHead → Slot → Option ℕ → MapHead
write m root_slot x = record m { root = x }
write m (left_slot a) x = set_item m a (record (m.items a) { l = x })
write m (right_slot a) x = set_item m a (record (m.items a) { r = x })

abbrev pub set_parent : MapHead → ℕ → Option ℕ → MapHead
set_parent m a x = set_item m a (record (m.items a) { p = x })

abbrev pub same_item : Option ℕ → ℕ → Bool
same_item none a = false
same_item (some b) a = b == a

-- `item->l = item->r = item->p = NULL`
abbrev pub unlinked : MapItem
unlinked = record { l = none; r = none; p = none }

abbrev pub map_init : (ℕ → MapItem) → MapHead
map_init items = record { root = none; items = items }

-- The item is put into the free slot that was found.
abbrev pub link : MapHead → Slot → Option ℕ → ℕ → MapHead
link m pp p item = set_item (write m pp (some item)) item (record { l = none; r = none; p = p })

-- `while (q->r) q = q->r;`
unfoldable pub last_right : ℕ → MapHead → ℕ → Run ℕ
last_right zero m q = if is_some (m.items q).r then aborted else ok q
last_right (suc fuel) m q = elim (m.items q).r [ none ↦ ok q | some r ↦ last_right fuel m r ]

-- `while (p->l) p = p->l;`
unfoldable pub last_left : ℕ → MapHead → ℕ → Run ℕ
last_left zero m p = if is_some (m.items p).l then aborted else ok p
last_left (suc fuel) m p = elim (m.items p).l [ none ↦ ok p | some l ↦ last_left fuel m l ]

-- An only child takes the place of the item.
abbrev pub replace_by : MapHead → Slot → ℕ → ℕ → MapHead
replace_by m p item child = let m' = write m p (some child) in set_parent m' child (m'.items item).p

-- The branches of map_del(), by the children of the item.
unfoldable pub unlink : ℕ → MapHead → Slot → ℕ → Option ℕ → Option ℕ → Run MapHead
unfolding last_right
unlink fuel m p item none none = ok (write m p none)
unlink fuel m p item (some l) none = ok (replace_by m p item l)
unlink fuel m p item none (some r) = ok (replace_by m p item r)
unlink fuel m p item (some l) (some r) = do
  q ← last_right fuel m l
  ok (replace_by (set_parent (write m (right_slot q) (some r)) item (some q)) p item l)

-- map_del() once its slot is found: the item is in it, or not.
unfoldable pub delete_at : ℕ → MapHead → ℕ → Slot → Bool → Run (MapHead × Option ℕ)
unfolding unlink
delete_at fuel m item p true = do
  m' ← unlink fuel m p item (m.items item).l (m.items item).r
  ok (set_item m' item unlinked, some item)
delete_at fuel m item p false = ok (m, none)

-- The loop of map_walk() up the tree.
unfoldable pub climb : ℕ → MapHead → ℕ → Run (Option ℕ)
climb zero m now = aborted
climb (suc fuel) m now = elim (m.items now).p [
  | none ↦ ok none
  | some p ↦ if same_item (m.items p).l now then ok (some p) else climb fuel m p
]

-- The leftmost item below a pointer; `none` is NULL.
unfoldable pub leftmost : ℕ → MapHead → Option ℕ → Run (Option ℕ)
unfolding last_left
leftmost fuel m none = ok none
leftmost fuel m (some p) = do q ← last_left fuel m p; ok (some q)

unfoldable pub map_walk : ℕ → MapHead → Option ℕ → Run (Option ℕ)
unfolding leftmost climb
map_walk fuel m none = leftmost fuel m m.root
map_walk fuel m (some now) = elim (m.items now).r [
  | none ↦ climb fuel m now
  | some r ↦ leftmost fuel m (some r)
]

module _ (comp : ℕ → ℕ → Compared) where
  -- The loop of _map_find(). On a dupe `*parent` is not written, and is `none` here.
  unfoldable pub find_loop : ℕ → MapHead → ℕ → Slot → Option ℕ → Run (Slot × Option ℕ)
  find_loop zero m key p q = if is_some (read m p) then aborted else ok (p, q)
  find_loop (suc fuel) m key p q = elim (read m p) [
    | none ↦ ok (p, q)
    | some a ↦ elim (comp key a) [
      | same ↦ ok (p, none)
      | below ↦ find_loop fuel m key (left_slot a) (some a)
      | above ↦ find_loop fuel m key (right_slot a) (some a)
    ]
  ]

  unfoldable pub map_find : ℕ → MapHead → ℕ → Run (Option ℕ)
  unfolding find_loop
  map_find fuel m key = do (p, q) ← find_loop fuel m key root_slot none; ok (read m p)

  unfoldable pub map_add : ℕ → MapHead → ℕ → Run (MapHead × Option ℕ)
  unfolding find_loop
  map_add fuel m item = do
    (pp, p) ← find_loop fuel m item root_slot none
    ok (elim (read m pp) [ some a ↦ (m, some a) | none ↦ (link m pp p item, none) ])

  unfoldable pub map_del : ℕ → MapHead → ℕ → Run (MapHead × Option ℕ)
  unfolding find_loop delete_at
  map_del fuel m item = do
    (p, q) ← find_loop fuel m item root_slot none
    delete_at fuel m item p (same_item (read m p) item)
