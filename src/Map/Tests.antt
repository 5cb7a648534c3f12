-- ===== src/Map/Tests.antt =====
-- A map of numbers, each its own key.
use tcp_striper.Base.{
  true, inl, [], ◌∷◌, Option, none, some, ℕ, ◌≡◌, ◌≢◌, refl, ltb, ◌==◌, if◌then◌else◌, arith,
}
use tcp_striper.Run.{Returns, ok, ◌>>=◌}
use tcp_striper.Map.{
  MapItem, MapHead, Compared, below, same, above, unlinked, find_loop, map_find, map_add, map_del,
  map_walk, last_left, last_right, leftmost, climb, unlink, delete_at,
}
use tcp_striper.Map.Add.{insert, map_add-insert}
use tcp_striper.Map.Walk.{visited, map_walk-inorder}
use tcp_striper.Map.Delete.{Deletes, map_del-delete}
use tcp_striper.Map.Find.{Tree, leaf, node, Forms, lookup}

abbrev by_number : ℕ → ℕ → Compared
by_number a b = if ltb a b then below else (if a == b then same else above)

-- 5, with 2 and 8 below it, and 3 to the right of 2.
abbrev item_at : ℕ → MapItem
item_at a =
    if a == 5
    then record { l = some 2; r = some 8; p = none }
    else (if a == 2
        then record { l = none; r = some 3; p = some 5 }
        else (if a == 8
            then record unlinked { p = some 5 }
            else (if a == 3 then record unlinked { p = some 2 } else unlinked)))

abbrev four_items : MapHead
four_items = record { root = some 5; items = item_at }

abbrev four_tree : Tree
four_tree = node (node leaf 2 (node leaf 3 leaf)) 5 (node leaf 8 leaf)

four_tree-Forms : Forms four_items (some 5) none four_tree
four_tree-Forms =
    (refl, refl, (refl, refl, refl, (refl, refl, refl, refl)), (refl, refl, refl, refl))

walks_from_3 : map_walk 4 four_items (some 3) ≡ ok (some 5)
unfolding map_walk climb leftmost last_left
walks_from_3 = refl

finds_8 : map_find by_number 4 four_items 8 ≡ ok (some 8)
unfolding map_find find_loop
finds_8 = refl

-- Adding 4 puts it to the right of 3, and it is found there.
adds_4 : map_add by_number 4 four_items 4 >>= (λ q. map_find by_number 4 q.0 4) ≡ ok (some 4)
unfolding map_add map_find find_loop
adds_4 = refl

-- 5, with its two children, is deleted and added again. The parent of 8 is still 5 then, which has
-- come to be its child, and the walk comes back from 8, the last item, to 8.
walk_goes_back :
    map_del by_number 4 four_items 5
      >>= (λ q. map_add by_number 4 q.0 5)
      >>= (λ q. map_walk 9 q.0 (some 8))
    ≡ ok (some 8)
unfolding map_del map_add delete_at unlink find_loop map_walk climb last_right leftmost last_left
walk_goes_back = refl

map_add-insert_example :
    Returns
      (λ (q : MapHead × Option ℕ).
        (q.1 ≡ lookup by_number 4 four_tree)
        × (q.1 ≡ none → Forms q.0 (q.0).root none (insert by_number 4 four_tree))
        × (q.1 ≢ none → q.0 ≡ four_items))
      (map_add by_number 4 four_items 4)
map_add-insert_example =
    map_add-insert by_number 4 four_items 4 four_tree four_tree-Forms (omega arith) (omega arith)
      (omega arith)

map_walk-inorder_example : visited 4 5 four_items none ≡ ok (2 ∷ 3 ∷ 5 ∷ 8 ∷ [])
map_walk-inorder_example =
    map_walk-inorder four_items 4 four_tree four_tree-Forms
      (
        ((omega arith), (omega arith)),
        ((omega arith), (omega arith)),
        ((omega arith), (omega arith)),
      )
      (omega arith) 5 (omega arith)

-- 2 has one child, 3.
map_del-delete_example :
    Deletes by_number 2 four_items four_tree true (map_del by_number 4 four_items 2)
map_del-delete_example =
    map_del-delete by_number 2 4 four_items four_tree four_tree-Forms
      (
        ((omega arith), (omega arith)),
        ((omega arith), (omega arith)),
        ((omega arith), (omega arith)),
      )
      (omega arith) (inl refl)
