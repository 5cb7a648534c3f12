-- ===== src/Map/RoundTrip.antt =====
-- map_find() after map_add() (src/data/src/map.c).
use tcp_striper.Base.{ℕ, ◌<◌, ◌≡◌, refl, sym, ap, ◌∙◌, Option, none, some, arith}
use tcp_striper.Run.{ok, Returns, Returns-imp}
use tcp_striper.Map.{MapHead, Compared, below, same, above, map_find, map_add}
use tcp_striper.Map.Find.{Tree, leaf, node, size, Forms, lookup, map_find-lookup}
use tcp_striper.Map.Link.{Apart, Distinct}
use tcp_striper.Map.Add.{insert, map_add-insert}
use tcp_striper.Map.Insert.{size-insert}

module _ (comp : ℕ → ℕ → Compared) (key : ℕ) (itself : comp key key ≡ same) where
  lookup-insert :
      (t : Tree) → lookup comp key t ≡ none → lookup comp key (insert comp key t) ≡ some key
  lookup-insert leaf e = rw (lookup, itself) refl
  lookup-insert (node l a r) e = by_order (lookup-insert l) (lookup-insert r) (comp key a) refl e
    where
      by_order :
          (lookup comp key l ≡ none → lookup comp key (insert comp key l) ≡ some key)
          → (lookup comp key r ≡ none → lookup comp key (insert comp key r) ≡ some key)
          → (o : Compared) → comp key a ≡ o
          → elim o [ same ↦ some a | below ↦ lookup comp key l | above ↦ lookup comp key r ] ≡ none
          → lookup comp key (elim o [
            | same ↦ node l a r
            | below ↦ node (insert comp key l) a r
            | above ↦ node l a (insert comp key r)
          ])
            ≡ some key
      by_order left right same c e = cc
      by_order left right below c e = rw (lookup, c) (left e)
      by_order left right above c e = rw (lookup, c) (right e)

  -- When the pointers of a map form a tree in which no item is twice and the new item is not,
  -- the comparison finds the item the same as itself, and the fuel is more than the number of
  -- items: if map_add() returns NULL, map_find() then returns the item.
  map_find-map_add :
      (m : MapHead) (fuel : ℕ) (t : Tree)
      → Forms m m.root none t
      → size t < fuel
      → Apart key t
      → Distinct t
      → Returns
          (λ (q : MapHead × Option ℕ). q.1 ≡ none → map_find comp fuel q.0 key ≡ ok (some key))
          (map_add comp fuel m key)
  map_find-map_add m fuel t h enough apart distinct =
      Returns-imp _ _ (map_add comp fuel m key)
        (map_add-insert comp key m fuel t h (omega arith) apart distinct)
        (λ q added e.
          map_find-lookup comp q.0 key fuel (insert comp key t) (added.1 e)
            (omega (arith, size-insert comp key t))
          ∙ ap ok (lookup-insert t (sym added.0 ∙ e)))
