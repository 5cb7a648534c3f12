-- ===== src/Hlist.antt =====
-- src/data/inc/libp/list.h: a list with one head, whose items know the pointer that leads to them.
-- An item is a number, its address.
pub mod Front
pub mod Delete
mod Tests
use tcp_striper.Base.{ℕ, Bool, Option, none, some, List, [], ◌∷◌, ◌==◌, if◌then◌else◌}

-- A `hlist_item **`: `&h->first` or `&i->next`.
pub data Link : Type 0 where
  first_link : Link
  next_link : ℕ → Link

pub record HlistItem : Type 0 where
  pub pprev : Option Link
  pub next : Option ℕ

-- `struct hlist_head`, and the items in the memory.
pub record HlistHead : Type 0 where
  pub first : Option ℕ
  pub items : ℕ → HlistItem

abbrev pub pointee : HlistHead → Link → Option ℕ
pointee h first_link = h.first
pointee h (next_link a) = (h.items a).next

abbrev pub put_item : HlistHead → ℕ → HlistItem → HlistHead
put_item h a item = record h { items = λ b. if b == a then item else h.items b }

-- `*link = x`
abbrev pub point : HlistHead → Link → Option ℕ → HlistHead
point h first_link x = record h { first = x }
point h (next_link a) x = put_item h a (record (h.items a) { next = x })

-- `if (x) x->pprev = link`
abbrev pub set_pprev : HlistHead → Option ℕ → Option Link → HlistHead
set_pprev h none link = h
set_pprev h (some a) link = put_item h a (record (h.items a) { pprev = link })

abbrev pub hlist_init : HlistHead → HlistHead
hlist_init h = record h { first = none }

abbrev pub hlist_init_item : HlistHead → ℕ → HlistHead
hlist_init_item h i = put_item h i (record { pprev = none; next = none })

-- hlist_add_front(), with what was the first item.
abbrev pub put_front : HlistHead → ℕ → Option ℕ → HlistHead
put_front h i first =
    let h1 = point h (next_link i) first in
    let h2 = set_pprev h1 first (some (next_link i)) in
    let h3 = set_pprev h2 (some i) (some first_link) in record h3 { first = some i }

unfoldable pub hlist_add_front : HlistHead → ℕ → HlistHead
hlist_add_front h i = put_front h i h.first

-- What hlist_del() does to an item that is in a list.
abbrev pub take_off : HlistHead → ℕ → Link → Option ℕ → HlistHead
take_off h i link next = hlist_init_item (set_pprev (point h link next) next (some link)) i

unfoldable pub hlist_del : HlistHead → ℕ → HlistHead
hlist_del h i = elim (h.items i).pprev [ none ↦ h | some link ↦ take_off h i link (h.items i).next ]

unfoldable pub hlist_walk : HlistHead → Option ℕ → Option ℕ
hlist_walk h none = h.first
hlist_walk h (some now) = (h.items now).next
