-- ===== src/EventLoop/Dispose.antt =====
-- evl_select_discard() and evl_select_dispose() of src/evl/src.linux/event_loop_select.c.
use mathlib.Core.Path.{subst}
use tcp_striper.Base.{
  ℕ, zero, suc, ◌≤◌, ◌<◌, ◌≡◌, refl, sym, ap, ◌∙◌, inl, Bool, true, false, not, none, some, ◌∷◌,
  ◌++◌, if◌then◌else◌, arith,
}
use tcp_striper.Run.{Run, ok, aborted, ◌>>◌, assert, Returns-value}
use tcp_striper.Map.{Compared, below, same, above, same_item, map_del}
use tcp_striper.Map.Find.{Tree, leaf, node, size, Forms, lookup}
use tcp_striper.Map.Zipper.{Up, top, from_left, from_right, inorder}
use tcp_striper.Map.Walk.{first, map_walk-first}
use tcp_striper.Map.Unlink.{graft, IsSingle}
use tcp_striper.Map.Delete.{way_to, delete, Deletes, map_del-delete}
use tcp_striper.EventLoop.{
  EvlSelect, Left, running, disposed, sk_order, select_sk_comp, dispose, evl_select_dispose,
  evl_select_discard,
}
use tcp_striper.EventLoop.Order.{TreeAll, IsOrdered, IsOrdered-Distinct}
use tcp_striper.EventLoop.Removal.{by_sk, SingleAt, delete-IsOrdered}
use tcp_striper.EventLoop.Watches.{number, Watches}

-- The leftmost item, and the tree without it.
abbrev least : Tree → ℕ → ℕ
least leaf a = a
least (node l c r) a = least l c

abbrev others : Tree → ℕ → Tree → Tree
others leaf a r = r
others (node ll c lr) a r = node (others ll c lr) a r

inorder-least :
    (l : Tree) (a : ℕ) (r : Tree) → inorder (node l a r) ≡ least l a ∷ inorder (others l a r)
inorder-least leaf a r = refl
inorder-least (node ll c lr) a r = ap (λ xs. xs ++ (a ∷ inorder r)) (inorder-least ll c lr)

TreeAll-least :
    (P : ℕ → Type 0) (l : Tree) (a : ℕ) (r : Tree) → TreeAll P (node l a r) → P (least l a)
TreeAll-least P leaf a r h = h.0
TreeAll-least P (node ll c lr) a r h = TreeAll-least P ll c lr h.1

size-others : (l : Tree) (a : ℕ) (r : Tree) → suc (size (others l a r)) ≡ size (node l a r)
size-others leaf a r = omega arith
size-others (node ll c lr) a r = omega (arith, size-others ll c lr)

abbrev SingleHere : Up × Tree → Type 0
SingleHere w = IsSingle w.1

module _ (k : ℕ → ℕ) where
  -- A search for `x` ends at `x`, which has at most one child, and the rest is left.
  abbrev Leftmost : ℕ → Up → Tree → Tree → Type 0
  Leftmost x up t t' =
      SingleAt k x up t × (lookup (by_sk k x) x t ≡ some x) × (delete (by_sk k x) x t ≡ t')

  least-Leftmost :
      (up : Up) (l : Tree) (a : ℕ) (r : Tree)
      → IsOrdered k (node l a r)
      → Leftmost (least l a) up (node l a r) (others l a r)
  least-Leftmost up leaf a r o = by_root (sk_order (k a) (k a)) (ground arith)
    where
      by_root :
          (q : Compared)
          → q ≡ same
          → SingleHere (elim q [
            | same ↦ (up, node leaf a r)
            | below ↦ way_to (by_sk k a) a (from_left a r up) leaf
            | above ↦ way_to (by_sk k a) a (from_right leaf a up) r
          ])
            × (elim q [ same ↦ some a | below ↦ none | above ↦ lookup (by_sk k a) a r ] ≡ some a)
            × (elim q [
              | same ↦ r
              | below ↦ node leaf a r
              | above ↦ node leaf a (delete (by_sk k a) a r)
            ]
                ≡ r)
      by_root same e = (inl refl, refl, refl)
      by_root below e = cc
      by_root above e = cc
  least-Leftmost up (node ll c lr) a r o =
      by_order (sk_order (k x) (k a)) before_a (least-Leftmost (from_left a r up) ll c lr o.2)
    where
      x : ℕ
      x = least ll c

      before_a : sk_order (k x) (k a) ≡ below
      before_a = let h = TreeAll-least (λ b. k b < k a) ll c lr o.0 in ground (arith, h)

      by_order :
          (q : Compared)
          → q ≡ below
          → Leftmost x (from_left a r up) (node ll c lr) (others ll c lr)
          → SingleHere (elim q [
            | same ↦ (up, node (node ll c lr) a r)
            | below ↦ way_to (by_sk k x) x (from_left a r up) (node ll c lr)
            | above ↦ way_to (by_sk k x) x (from_right (node ll c lr) a up) r
          ])
            × (elim q [
              | same ↦ some a
              | below ↦ lookup (by_sk k x) x (node ll c lr)
              | above ↦ lookup (by_sk k x) x r
            ]
                ≡ some x)
            × (elim q [
              | same ↦ graft (node ll c lr) r
              | below ↦ node (delete (by_sk k x) x (node ll c lr)) a r
              | above ↦ node (node ll c lr) a (delete (by_sk k x) x r)
            ]
                ≡ node (others ll c lr) a r)
      by_order same e h = cc
      by_order below e h = (h.0, h.1, ap (λ u. node u a r) h.2)
      by_order above e h = cc

module _ {C : Type 0} (rounds : ℕ) where
  -- Each socket is freed once, from the first to the last.
  pub evl_select_dispose-inorder :
      (fuel : ℕ) (evl : EvlSelect C) (t : Tree)
      → Forms evl.sockets (evl.sockets).root none t
      → IsOrdered (number evl) t
      → size t ≤ rounds
      → size t < fuel
      → evl_select_dispose rounds fuel evl ≡ ok (inorder t)
  unfolding evl_select_dispose
  evl_select_dispose-inorder zero evl t f o enough more = absurd (omega arith)
  evl_select_dispose-inorder (suc fuel) evl leaf f o enough more =
      let walk = map_walk-first evl.sockets rounds leaf f enough in rw walk refl
  evl_select_dispose-inorder (suc fuel) evl (node l a r) f o enough more =
      let x = least l a in
      let k = number evl in
      let comp = select_sk_comp evl.sks in
      let (single, looks_up, cut) = least-Leftmost k top l a r o in
      let walk =
        map_walk-first evl.sockets rounds (node l a r) f enough
        ∙ ap (λ xs. ok (first xs)) (inorder-least l a r) in
      let itself : same_item (some x) x ≡ true = ground arith in
      let (q, made, h) = Returns-value _ (map_del comp rounds evl.sockets x) (
        subst (λ b. Deletes comp x evl.sockets (node l a r) b (map_del comp rounds evl.sockets x))
          (ap (λ y. same_item y x) looks_up ∙ itself)
          (map_del-delete comp x rounds evl.sockets (node l a r) f
            (IsOrdered-Distinct k (node l a r) o) enough single)) in
      let rest =
        evl_select_dispose-inorder fuel (record evl { sockets = q.0 }) (others l a r)
          (subst (λ u. Forms q.0 (q.0).root none u) cut h.1)
          (subst (λ u. IsOrdered k u) cut (delete-IsOrdered k x top (node l a r) o single))
          (omega (arith, size-others l a r, enough)) (omega (arith, size-others l a r, more)) in
      rw (walk, made, rest) (ap ok (sym (inorder-least l a r)))

  -- When the sets and nfds of the loop are in step with its sockets, a tree in order, then
  -- discard(), with fuel for more rounds than there are sockets, fails its assertion if the
  -- loop is dead; if not, and the loop is in a callback, it only marks the loop as dead; and
  -- otherwise it comes to the end of the loop of dispose(), which takes the sockets out of the
  -- map and frees each of them once, in the order of their descriptors.
  pub evl_select_discard_law :
      (evl : EvlSelect C) (t : Tree)
      → Watches evl t
      → size t < rounds
      → evl_select_discard rounds evl ≡ (
          if evl.dead
          then aborted
          else if evl.in_callback
          then ok (running (record evl { dead = true }))
          else ok (disposed (inorder t)))
  unfolding evl_select_discard dispose
  evl_select_discard_law evl t w more =
      let marked = record evl { dead = true } in
      let freed =
        evl_select_dispose-inorder rounds marked t w.forms w.ordered (omega (arith, more)) more in
      by_flags evl.dead evl.in_callback (dispose rounds marked) (rw freed refl)
    where
      by_flags :
          (dead in_callback : Bool) (gone : Run (Left C))
          → gone ≡ ok (disposed (inorder t))
          → (assert (not dead)
              >> (if in_callback then ok (running (record evl { dead = true })) else gone))
            ≡ (if dead
                then aborted
                else if in_callback
                then ok (running (record evl { dead = true }))
                else ok (disposed (inorder t)))
      by_flags true in_callback gone e = refl
      by_flags false true gone e = refl
      by_flags false false gone e = e
