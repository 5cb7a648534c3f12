-- ===== src/Hlist/Tests.antt =====
-- A list of three items (src/data/inc/libp/list.h).
use tcp_striper.Base.{◌≡◌, refl, none, some, [], ◌∷◌, ◌++◌, arith}
use tcp_striper.Hlist.{first_link, HlistHead, hlist_init, hlist_add_front, hlist_del, hlist_walk}
use tcp_striper.Hlist.Front.{Forms}
use tcp_striper.Hlist.Delete.{hlist_del-Forms}

abbrev empty : HlistHead
empty = hlist_init (record { first = none; items = λ a. record { pprev = none; next = none } })

unfoldable three : HlistHead
unfolding hlist_add_front
three = hlist_add_front (hlist_add_front (hlist_add_front empty 3) 2) 1

three-Forms : Forms three first_link three.first (1 ∷ 2 ∷ 3 ∷ [])
unfolding three
three-Forms = (refl, refl, (refl, refl, (refl, refl, refl)))

walks : hlist_walk three (hlist_walk three none) ≡ some 2
unfolding three hlist_walk
walks = refl

hlist_del-Forms_example :
    let h = hlist_del three 2 in
    Forms h first_link h.first ((1 ∷ []) ++ (3 ∷ []))
    × (h.items 2 ≡ record { pprev = none; next = none })
    × (hlist_del h 2 ≡ h)
hlist_del-Forms_example = hlist_del-Forms three 2 (1 ∷ []) (3 ∷ []) three-Forms (omega arith)
