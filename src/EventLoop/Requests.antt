-- ===== src/EventLoop/Requests.antt =====
-- The calls of the event loop that a callback makes, one after the other
-- (src/evl/inc/libp/event_loop.h, src/evl/src.linux/event_loop_select.c).
use mathlib.Core.Path.{subst}
use tcp_striper.Base.{
  ℕ, ◌+◌, ◌≤◌, ◌<◌, ◌≡◌, refl, sym, ◌∙◌, inr, true, Option, none, some, List, [], ◌∷◌, length,
  arith,
}
use tcp_striper.Run.{Returns, Returns-bind, Returns-imp}
use tcp_striper.Map.Find.{Tree, size}
use tcp_striper.Map.Insert.{size-insert}
use tcp_striper.EventLoop.{EvlSelect, Left, running, disposed, sk_order}
use tcp_striper.EventLoop.Find.{find_sk}
use tcp_striper.EventLoop.Removal.{size-delete}
use tcp_striper.EventLoop.Watches.{Watches}
use tcp_striper.EventLoop.Monitor.{
  Request, add_socket, mod_socket, del_socket, discard, perform, perform_all,
}
use tcp_striper.EventLoop.Effects.{Notices-trans, renumbered}
use tcp_striper.EventLoop.View.{View, without, CanAll, after, after_all, view, Looks}
use tcp_striper.EventLoop.Perform.{perform-Looks}

module _ {C : Type 0} where
  size-after : (v : View) (request : Request C) → size (after v request).tree ≤ size v.tree + 1
  size-after v (add_socket none sk events cb) = omega arith
  size-after v (add_socket (some fresh) sk events cb) =
      let k = renumbered v.number fresh sk in size-insert (λ a b. sk_order (k a) (k b)) fresh v.tree
  size-after v (mod_socket sk events) = omega arith
  size-after v (del_socket sk) = by_found (find_sk v.number sk v.tree)
    where
      by_found : (x : Option ℕ) → size (without v.number v.tree x) ≤ size v.tree + 1
      by_found none = omega arith
      by_found (some a) = omega (arith, size-delete v.number a v.tree)
  size-after v discard = omega arith

  -- What the first call has left is what the others see.
  Looks-join :
      (evl evl' : EvlSelect C) (v' v : View) (left : Left C)
      → Looks evl v' (running evl')
      → Looks evl' v left
      → Looks evl v left
  Looks-join evl evl' v' v (running e) h k = (k.0, k.1, Notices-trans evl evl' e h.2 k.2, k.3 ∙ h.3)
  Looks-join evl evl' v' v (disposed freed) h k = elim k [ ]

  -- When the sets and nfds of the loop are in step with its sockets, a tree in order, and it
  -- is in a callback, the calls of add_socket(), mod_socket(), del_socket() and discard() that
  -- a callback makes one after the other, with fuel for more rounds than there are sockets and
  -- calls, come to an end, provided that each keeps to the rules where it is made: a socket
  -- that is added is new and in new memory, with a descriptor below FD_SETSIZE, one that is
  -- changed or deleted is there, with at most one child if it is deleted, and the loop is
  -- discarded at most once. The loop is not disposed of but still in the callback, in step
  -- again with the tree, descriptors, masks and dead that the calls make of the view of it,
  -- and either map_touched is set or the map, that flag and the events that sockets are still
  -- to be told of are as they were.
  pub perform_all_law :
      (requests : List (Request C)) (fuel : ℕ) (evl : EvlSelect C) (t : Tree)
      → Watches evl t
      → evl.in_callback ≡ true
      → CanAll (view evl t) requests
      → size t + length requests < fuel
      → Returns
          (Looks evl (after_all (view evl t) requests))
          (perform_all fuel (running evl) requests)
  unfolding perform_all
  perform_all_law [] fuel evl t w e can enough = (w, refl, inr (refl, refl, λ a. refl), refl)
  perform_all_law (request ∷ requests) fuel evl t w e can enough =
      Returns-bind (Looks evl (after (view evl t) request))
        (Looks evl (after_all (after (view evl t) request) requests))
        (perform fuel (running evl) request) _
        (perform-Looks fuel evl t w (omega (arith, enough)) request e can.0)
        (onward (λ evl' t'. perform_all_law requests fuel evl' t'))
    where
      next : View
      next = after (view evl t) request

      onward :
          ((evl' : EvlSelect C) (t' : Tree)
            → Watches evl' t'
            → evl'.in_callback ≡ true
            → CanAll (view evl' t') requests
            → size t' + length requests < fuel
            → Returns
                (Looks evl' (after_all (view evl' t') requests))
                (perform_all fuel (running evl') requests))
          → (left : Left C) → Looks evl next left
          → Returns (Looks evl (after_all next requests)) (perform_all fuel left requests)
      onward rest (disposed freed) h = elim h [ ]
      onward rest (running evl') h =
          Returns-imp (Looks evl' (after_all next requests)) (Looks evl (after_all next requests))
            (perform_all fuel (running evl') requests)
            (subst
              (λ u.
                Returns (Looks evl' (after_all u requests))
                  (perform_all fuel (running evl') requests))
              h.1
              (rest evl' next.tree h.0 (h.3 ∙ e) (subst (λ u. CanAll u requests) (sym h.1) can.1)
                (omega (arith, enough, size-after (view evl t) request))))
            (λ left. Looks-join evl evl' next (after_all next requests) left h)
