-- ===== src/EventLoop/Removal.antt =====
-- The tree of sockets (src/evl/src.linux/event_loop_select.c) when one is added or deleted.
use Prim.Native.Nat.{max}
use tcp_striper.Base.{
  ℕ, suc, ◌+◌, ◌≤◌, ◌<◌, ◌≡◌, refl, sym, inl, inr, none, some, ◌==◌, if◌then◌else◌, arith,
}
use mathlib.Core.Path.{subst}
use tcp_striper.Map.{Compared, below, same, above}
use tcp_striper.Map.Find.{Tree, leaf, node, size, lookup}
use tcp_striper.Map.Add.{insert}
use tcp_striper.Map.Insert.{insert-induction}
use tcp_striper.Map.Zipper.{Up, from_left, from_right}
use tcp_striper.Map.Unlink.{graft, graft-leaf, IsSingle}
use tcp_striper.Map.Delete.{delete, way_to}
use tcp_striper.EventLoop.{sk_order}
use tcp_striper.EventLoop.Find.{find_sk, below_law, above_law, same→eq}
use tcp_striper.EventLoop.Watches.{above_all}
use tcp_striper.EventLoop.Order.{TreeAll, IsOrdered, absent_above, absent_below}

-- Of an item with one child, what the child has.
graft_cases {ℓ} :
    (P : Tree → Type ℓ) (l r : Tree) (a : ℕ) → IsSingle (node l a r) → P l → P r → P (graft l r)
graft_cases P l r a (inl e) pl pr = subst (λ x. P (graft x r)) (sym e) pr
graft_cases P l r a (inr e) pl pr =
    subst (λ x. P (graft l x)) (sym e) (subst P (sym (graft-leaf l)) pl)

module _ (k : ℕ → ℕ) (key : ℕ) where
  abbrev pub by_sk : ℕ → ℕ → Compared
  by_sk x y = sk_order (k x) (k y)

  abbrev At : Up × Tree → Type 0
  At w = IsSingle w.1

  -- The item that a search ends at has at most one child.
  abbrev pub SingleAt : Up → Tree → Type 0
  SingleAt up t = At (way_to by_sk key up t)

  -- A search once the root is gone.
  find_root :
      (n a : ℕ) (l r : Tree)
      → k key ≡ k a
      → IsSingle (node l a r)
      → IsOrdered k (node l a r)
      → find_sk k n (graft l r) ≡ (if n == k key then none else find_sk k n (node l a r))
  find_root n a l r e (inl no_left) o =
      let high = absent_above k n a r in
      subst (λ x. find_sk k n (graft x r) ≡ (if n == k key then none else find_sk k n (node x a r)))
        (sym no_left) (ground (arith, high, o.1))
  find_root n a l r e (inr no_right) o =
      let low = absent_below k n a l in
      subst (λ x. find_sk k n (graft l x) ≡ (if n == k key then none else find_sk k n (node l a x)))
        (sym no_right) (rw (graft-leaf l) (ground (arith, low, o.0)))

  pub find_sk-delete :
      (n : ℕ) (up : Up) (t : Tree)
      → IsOrdered k t
      → SingleAt up t
      → find_sk k n (delete by_sk key t) ≡ (if n == k key then none else find_sk k n t)
  find_sk-delete n up leaf o s = ground arith
  find_sk-delete n up (node l a r) o s =
      by_order (find_sk-delete n (from_left a r up) l o.2)
        (find_sk-delete n (from_right l a up) r o.3) (by_sk key a) refl s
    where
      Law : Tree → Tree → Type 0
      Law t t' = find_sk k n t' ≡ (if n == k key then none else find_sk k n t)

      by_order :
          (SingleAt (from_left a r up) l → Law l (delete by_sk key l))
          → (SingleAt (from_right l a up) r → Law r (delete by_sk key r))
          → (c : Compared) → by_sk key a ≡ c
          → At (elim c [
            | same ↦ (up, node l a r)
            | below ↦ way_to by_sk key (from_left a r up) l
            | above ↦ way_to by_sk key (from_right l a up) r
          ])
          → Law (node l a r) (elim c [
            | same ↦ graft l r
            | below ↦ node (delete by_sk key l) a r
            | above ↦ node l a (delete by_sk key r)
          ])
      by_order left right same c s = find_root n a l r (same→eq (k key) (k a) c) s o
      by_order left right below c s = below_law n (k key) (k a) _ _ _ _ _ c (left s)
      by_order left right above c s = above_law n (k key) (k a) _ _ _ _ _ c (right s)

  TreeAll-graft : (P : ℕ → Type 0) (l r : Tree) → TreeAll P l → TreeAll P r → TreeAll P (graft l r)
  TreeAll-graft P leaf r hl hr = hr
  TreeAll-graft P (node ll b lr) r hl hr = (hl.0, hl.1, TreeAll-graft P lr r hl.2 hr)

  TreeAll-delete : (P : ℕ → Type 0) (t : Tree) → TreeAll P t → TreeAll P (delete by_sk key t)
  TreeAll-delete P leaf h = tt
  TreeAll-delete P (node l a r) h =
      by_order (TreeAll-delete P l h.1) (TreeAll-delete P r h.2) (by_sk key a)
    where
      by_order :
          TreeAll P (delete by_sk key l)
          → TreeAll P (delete by_sk key r)
          → (c : Compared)
          → TreeAll P (elim c [
            | same ↦ graft l r
            | below ↦ node (delete by_sk key l) a r
            | above ↦ node l a (delete by_sk key r)
          ])
      by_order left right same = TreeAll-graft P l r h.1 h.2
      by_order left right below = (h.0, left, h.2)
      by_order left right above = (h.0, h.1, right)

  pub delete-IsOrdered :
      (up : Up) (t : Tree) → IsOrdered k t → SingleAt up t → IsOrdered k (delete by_sk key t)
  delete-IsOrdered up leaf o s = tt
  delete-IsOrdered up (node l a r) o s =
      by_order (delete-IsOrdered (from_left a r up) l o.2)
        (delete-IsOrdered (from_right l a up) r o.3) (by_sk key a) s
    where
      by_order :
          (SingleAt (from_left a r up) l → IsOrdered k (delete by_sk key l))
          → (SingleAt (from_right l a up) r → IsOrdered k (delete by_sk key r))
          → (c : Compared)
          → At (elim c [
            | same ↦ (up, node l a r)
            | below ↦ way_to by_sk key (from_left a r up) l
            | above ↦ way_to by_sk key (from_right l a up) r
          ])
          → IsOrdered k (elim c [
            | same ↦ graft l r
            | below ↦ node (delete by_sk key l) a r
            | above ↦ node l a (delete by_sk key r)
          ])
      by_order left right same s = graft_cases (IsOrdered k) l r a s o.2 o.3
      by_order left right below s = (TreeAll-delete (λ b. k b < k a) l o.0, o.1, left s, o.3)
      by_order left right above s = (o.0, TreeAll-delete (λ b. k a < k b) r o.1, o.2, right s)

  above_all-graft : (l r : Tree) → above_all k (graft l r) ≡ max (above_all k l) (above_all k r)
  above_all-graft leaf r = ground arith
  above_all-graft (node ll b lr) r =
      let below_here = above_all-graft lr r in ground (arith, below_here)

  pub above_all-delete :
      (t : Tree) (b : ℕ)
      → lookup by_sk key t ≡ some b
      → above_all k t ≡ max (suc (k key)) (above_all k (delete by_sk key t))
  above_all-delete leaf b e = cc
  above_all-delete (node l a r) b e =
      by_order (above_all-delete l b) (above_all-delete r b) (by_sk key a) refl e
    where
      by_order :
          (lookup by_sk key l ≡ some b
            → above_all k l ≡ max (suc (k key)) (above_all k (delete by_sk key l)))
          → (lookup by_sk key r ≡ some b
              → above_all k r ≡ max (suc (k key)) (above_all k (delete by_sk key r)))
          → (c : Compared) → by_sk key a ≡ c
          → elim c [ same ↦ some a | below ↦ lookup by_sk key l | above ↦ lookup by_sk key r ]
            ≡ some b
          → above_all k (node l a r)
            ≡ max (suc (k key)) (
                above_all k (elim c [
                  | same ↦ graft l r
                  | below ↦ node (delete by_sk key l) a r
                  | above ↦ node l a (delete by_sk key r)
                ]))
      by_order left right same c e =
          let here = same→eq (k key) (k a) c in
          let rest = above_all-graft l r in ground (arith, here, rest)
      by_order left right below c e = let rest = left e in ground (arith, rest)
      by_order left right above c e = let rest = right e in ground (arith, rest)

  size-graft : (l r : Tree) → size (graft l r) ≡ size l + size r
  size-graft leaf r = omega arith
  size-graft (node ll b lr) r = omega (arith, size-graft lr r)

  pub size-delete : (t : Tree) → size (delete by_sk key t) ≤ size t
  size-delete leaf = omega arith
  size-delete (node l a r) = by_order (size-delete l) (size-delete r) (by_sk key a)
    where
      by_order :
          size (delete by_sk key l) ≤ size l
          → size (delete by_sk key r) ≤ size r
          → (c : Compared)
          → size (elim c [
            | same ↦ graft l r
            | below ↦ node (delete by_sk key l) a r
            | above ↦ node l a (delete by_sk key r)
          ])
            ≤ size (node l a r)
      by_order left right same = omega (arith, size-graft l r)
      by_order left right below = omega arith
      by_order left right above = omega arith

  TreeAll-insert :
      (P : ℕ → Type 0) (t : Tree) → P key → TreeAll P t → TreeAll P (insert by_sk key t)
  TreeAll-insert P t p h =
      insert-induction by_sk key (λ t t'. TreeAll P t → TreeAll P t') (λ h. (p, tt, tt)) (λ t h. h)
        (λ l l' a r keep h. (h.0, keep h.1, h.2)) (λ l a r r' keep h. (h.0, h.1, keep h.2)) t h

  pub insert-IsOrdered : (t : Tree) → IsOrdered k t → IsOrdered k (insert by_sk key t)
  insert-IsOrdered leaf o = (tt, tt, tt, tt)
  insert-IsOrdered (node l a r) o =
      by_order (insert-IsOrdered l o.2) (insert-IsOrdered r o.3) (by_sk key a) refl
    where
      by_order :
          IsOrdered k (insert by_sk key l)
          → IsOrdered k (insert by_sk key r)
          → (c : Compared) → by_sk key a ≡ c
          → IsOrdered k (elim c [
            | same ↦ node l a r
            | below ↦ node (insert by_sk key l) a r
            | above ↦ node l a (insert by_sk key r)
          ])
      by_order left right same c = o
      by_order left right below c =
          (TreeAll-insert (λ b. k b < k a) l (ground (arith, c)) o.0, o.1, left, o.3)
      by_order left right above c =
          (o.0, TreeAll-insert (λ b. k a < k b) r (ground (arith, c)) o.1, o.2, right)
