-- ===== src/Map/Aside.antt =====
-- The items around a slot of the map (src/data/src/map.c) are not those below it.
use tcp_striper.Base.{ℕ, ◌≢◌}
use tcp_striper.Map.Find.{Tree, leaf, node}
use tcp_striper.Map.Link.{Apart, Disjoint, Distinct}
use tcp_striper.Map.Zipper.{Up, top, from_left, from_right, plug}

-- The item is not around the slot.
abbrev pub ApartUp : ℕ → Up → Type 0
ApartUp b top = Unit {0}
ApartUp b (from_left a r up) = (b ≢ a) × Apart b r × ApartUp b up
ApartUp b (from_right l a up) = (b ≢ a) × Apart b l × ApartUp b up

-- No item of the tree is around the slot.
abbrev pub AllApart : Up → Tree → Type 0
AllApart up leaf = Unit {0}
AllApart up (node l b r) = ApartUp b up × AllApart up l × AllApart up r

under_left :
    (a : ℕ) (r : Tree) (up : Up) (t : Tree)
    → Apart a t
    → Disjoint t r
    → AllApart up t
    → AllApart (from_left a r up) t
under_left a r up leaf x d h = tt
under_left a r up (node tl b tr) x d h =
    ((λ e. x.0 cc, d.0, h.0), under_left a r up tl x.1 d.1 h.1, under_left a r up tr x.2 d.2 h.2)

under_right :
    (l : Tree) (a : ℕ) (up : Up) (t : Tree)
    → Apart a t
    → Disjoint t l
    → AllApart up t
    → AllApart (from_right l a up) t
under_right l a up leaf x d h = tt
under_right l a up (node tl b tr) x d h =
    ((λ e. x.0 cc, d.0, h.0), under_right l a up tl x.1 d.1 h.1, under_right l a up tr x.2 d.2 h.2)

pub Distinct-plug : (up : Up) (t : Tree) → Distinct (plug up t) → Distinct t × AllApart up t
Distinct-plug top t d = (d, every t)
  where
    every : (t : Tree) → AllApart top t
    every leaf = tt
    every (node l b r) = (tt, every l, every r)
Distinct-plug (from_left a r up) t d =
    let (here, up_here) = Distinct-plug up (node t a r) d in
    (here.2.0, under_left a r up t here.0.0 here.1.0 up_here.1)
Distinct-plug (from_right l a up) t d =
    let (here, up_here) = Distinct-plug up (node l a t) d in
    (here.2.1, under_right l a up t here.0.1 here.1.1 up_here.2)
