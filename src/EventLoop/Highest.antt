-- ===== src/EventLoop/Highest.antt =====
-- The largest descriptor, for nfds, in evl_select_del_socket() of
-- src/evl/src.linux/event_loop_select.c.
use Prim.Native.Nat.{max}
use tcp_striper.Base.{
  ℕ, zero, suc, ◌+◌, ◌≤◌, ◌<◌, ◌≡◌, ◌≢◌, refl, sym, ap, ◌∙◌, Bool, true, false, Option, none, some,
  List, [], ◌∷◌, ◌++◌, append_assoc, length, ◌==◌, ltb, ==_iff, arith,
}
use tcp_striper.Run.{ok}
use tcp_striper.Map.{Compared, below, same, above, map_walk}
use tcp_striper.Map.Find.{Tree, leaf, node, size, Forms}
use tcp_striper.Map.Link.{Distinct}
use tcp_striper.Map.Walk.{first, map_walk-first, map_walk-next, length-inorder}
use tcp_striper.Map.Zipper.{inorder}
use tcp_striper.EventLoop.{EvlSelect, sk_order, max_loop, new_nfds}
use tcp_striper.EventLoop.Find.{find_sk}
use tcp_striper.EventLoop.Order.{TreeAll, IsOrdered, IsOrdered-Distinct}
use tcp_striper.EventLoop.Watches.{above_all, number}

-- More than any descriptor of the items.
abbrev above_list : (ℕ → ℕ) → List ℕ → ℕ
above_list k [] = 0
above_list k (a ∷ ys) = max (suc (k a)) (above_list k ys)

module _ (k : ℕ → ℕ) where
  above_list-append :
      (xs ys : List ℕ) → above_list k (xs ++ ys) ≡ max (above_list k xs) (above_list k ys)
  above_list-append [] ys = ground arith
  above_list-append (x ∷ xs) ys = let rest = above_list-append xs ys in ground (arith, rest)

  above_list-inorder : (t : Tree) → above_list k (inorder t) ≡ above_all k t
  above_list-inorder leaf = refl
  above_list-inorder (node l a r) =
      let split = above_list-append (inorder l) (a ∷ inorder r) in
      let left = above_list-inorder l in
      let right = above_list-inorder r in ground (arith, split, left, right)

  above_all-bound : (c : ℕ) (t : Tree) → TreeAll (λ b. k b < c) t → above_all k t ≤ c
  above_all-bound c leaf h = omega arith
  above_all-bound c (node l a r) h =
      let left = above_all-bound c l h.1 in
      let right = above_all-bound c r h.2 in ground (arith, left, right, h.0)

  -- A descriptor that is not found is not the largest.
  not_highest : (n : ℕ) (t : Tree) → IsOrdered k t → find_sk k n t ≡ none → above_all k t ≢ suc n
  not_highest n leaf o e = λ x. omega arith
  not_highest n (node l a r) o e =
      by_order (sk_order n (k a)) refl e (not_highest n r o.3) (above_all-bound (k a) l o.0)
    where
      by_order :
          (c : Compared)
          → sk_order n (k a) ≡ c
          → elim c [ same ↦ some a | below ↦ find_sk k n l | above ↦ find_sk k n r ] ≡ none
          → (find_sk k n r ≡ none → above_all k r ≢ suc n)
          → above_all k l ≤ k a
          → above_all k (node l a r) ≢ suc n
      by_order same c e right left = cc
      by_order below c e right left = λ x. ground (arith, c)
      by_order above c e right left = λ x. right e (ground (arith, c, left))

module _ {C : Type 0} where
  -- The walk for the largest descriptor finds it, when none is above `sk - 1`.
  max_loop_rest :
      (evl : EvlSelect C) (t : Tree) (sk rounds : ℕ)
      → Forms evl.sockets (evl.sockets).root none t
      → Distinct t
      → size t ≤ rounds
      → (fuel : ℕ) (mi : Option ℕ) (xs ys : List ℕ) (bm : ℕ) → inorder t ≡ xs ++ ys
      → map_walk rounds evl.sockets mi ≡ ok (first ys)
      → length ys < fuel
      → above_list (number evl) ys ≤ sk
      → max_loop rounds fuel evl sk mi bm ≡ ok (max bm (above_list (number evl) ys))
  unfolding max_loop
  max_loop_rest evl t sk rounds f d enough zero mi xs ys bm e next more low = absurd (omega arith)
  max_loop_rest evl t sk rounds f d enough (suc fuel) mi xs [] bm e next more low =
      rw next (ap ok (ground arith))
  max_loop_rest evl t sk rounds f d enough (suc fuel) mi xs (a ∷ ys) bm e next more low = rw next (
      by_tests (ltb (number evl a + 1) bm) refl (number evl a + 1 == sk) refl (λ bm'.
        max_loop_rest evl t sk rounds f d enough fuel (some a) (xs ++ (a ∷ [])) ys bm'
          (e ∙ sym (append_assoc xs (a ∷ []) ys))
          (map_walk-next evl.sockets rounds t f d enough xs ys a e) (omega arith)
          (ground (arith, low))))
    where
      by_tests :
          (b : Bool)
          → ltb (number evl a + 1) bm ≡ b
          → (c : Bool) → (number evl a + 1 == sk) ≡ c
          → ((bm' : ℕ)
              → max_loop rounds fuel evl sk (some a) bm'
                ≡ ok (max bm' (above_list (number evl) ys)))
          → elim b [
            | true ↦ max_loop rounds fuel evl sk (some a) bm
            | false ↦ elim c [
              | true ↦ ok (number evl a + 1)
              | false ↦ max_loop rounds fuel evl sk (some a) (number evl a + 1)
            ]
          ]
            ≡ ok (max bm (above_list (number evl) (a ∷ ys)))
      by_tests true e c e' rest = rest bm ∙ ap ok (ground (arith, e))
      by_tests false e true e' rest = ap ok (ground (arith, e, e', low))
      by_tests false e false e' rest = rest (number evl a + 1) ∙ ap ok (ground (arith, e))

  pub new_nfds-above :
      (fuel : ℕ) (evl : EvlSelect C) (t : Tree) (sk : ℕ)
      → Forms evl.sockets (evl.sockets).root none t
      → IsOrdered (number evl) t
      → size t < fuel
      → evl.nfds ≡ max (suc sk) (above_all (number evl) t)
      → find_sk (number evl) sk t ≡ none
      → new_nfds fuel evl sk ≡ ok (above_all (number evl) t)
  unfolding new_nfds
  new_nfds-above fuel evl t sk f o enough high gone = by_test (evl.nfds == sk + 1) refl
    where
      by_test :
          (b : Bool)
          → (evl.nfds == sk + 1) ≡ b
          → elim b [ true ↦ max_loop fuel fuel evl sk none 0 | false ↦ ok evl.nfds ]
            ≡ ok (above_all (number evl) t)
      by_test true e =
          let list = above_list-inorder (number evl) t in
          let other = not_highest (number evl) sk t o gone in
          let nfds_e = (==_iff evl.nfds (sk + 1)).0 e in
          max_loop_rest evl t sk fuel f (IsOrdered-Distinct (number evl) t o) (omega arith) fuel
            none [] (inorder t) 0 refl (map_walk-first evl.sockets fuel t f (omega arith))
            (omega (arith, length-inorder t)) (ground (arith, list, high, nfds_e, other))
          ∙ ap ok (ground (arith, list))
      by_test false e = ap ok (ground (arith, high, e))
