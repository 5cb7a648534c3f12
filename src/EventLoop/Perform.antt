-- ===== src/EventLoop/Perform.antt =====
-- One call of the event loop by a callback (src/evl/src.linux/event_loop_select.c).
use mathlib.Core.Path.{fun_ext, subst}
use tcp_striper.Base.{
  ℕ, ◌<◌, ◌≡◌, refl, ap, ◌∙◌, inr, Bool, true, false, not, Option, none, some, is_some,
  if◌then◌else◌, arith,
}
use tcp_striper.Run.{Run, ok, assert_holds, Returns, Returns-bind, Returns-imp}
use tcp_striper.Socket.{SkEvents}
use tcp_striper.Map.Find.{Tree, size}
use tcp_striper.EventLoop.{
  EvlSelect, running, dispose, evl_select_add_socket, evl_select_mod_socket, evl_select_del_socket,
  evl_select_discard,
}
use tcp_striper.EventLoop.Find.{find_sk}
use tcp_striper.EventLoop.Like.{Masks-Watches}
use tcp_striper.EventLoop.Watches.{number, asked, Watches, Asks}
use tcp_striper.EventLoop.Add.{Adds, evl_select_add_socket_law}
use tcp_striper.EventLoop.Mod.{Mods, evl_select_mod_socket_law}
use tcp_striper.EventLoop.Del.{Dels, HasOneChild, evl_select_del_socket_law}
use tcp_striper.EventLoop.Monitor.{Request, add_socket, mod_socket, del_socket, discard, perform}
use tcp_striper.EventLoop.Effects.{
  Turns, Returns-both, number-alloc_select_sk, add-Turns, mod-Turns, del-Turns,
}
use tcp_striper.EventLoop.View.{View, insert_by, without, Single, Can, after, view, Looks}

module _ {C : Type 0} where
  seen_as :
      (evl evl' : EvlSelect C) (v : View)
      → Watches evl' v.tree
      → ((n : ℕ) → asked evl' v.tree n ≡ v.wanted n)
      → evl.dead ≡ v.dead
      → Turns evl v.number evl'
      → Looks evl v (running evl')
  seen_as evl evl' v w asks alive h = (
    w,
    (λ i. record {
      tree = v.tree;
      number = h.numbers i;
      wanted = fun_ext asks i;
      dead = (h.dead ∙ alive) i;
    }),
    h.notices,
    h.in_callback,
  )

  module _ (fuel : ℕ) (evl : EvlSelect C) (t : Tree) (w : Watches evl t)
      (enough : size t < fuel) where
    add-Looks :
        (fresh sk : ℕ) (events : SkEvents) (cb : C)
        → Can {C = C} (view evl t) (add_socket (some fresh) sk events cb)
        → Returns
            (Looks evl (after {C = C} (view evl t) (add_socket (some fresh) sk events cb)))
            (perform fuel (running evl) (add_socket (some fresh) sk events cb))
    unfolding perform
    add-Looks fresh sk events cb (apart, free, small) =
        let v = after {C = C} (view evl t) (add_socket (some fresh) sk events cb) in
        let m = evl_select_add_socket fuel evl (some fresh) sk events cb in
        let added =
          subst (λ x. Adds evl t fresh sk events cb x m) free
            (evl_select_add_socket_law evl t fresh sk events cb fuel w (omega (arith, enough)) apart
              small) in
        let P = (λ (k : ℕ → ℕ) (evl' : EvlSelect C).
          Watches evl' (insert_by k fresh t)
          × Asks evl t sk (some events) evl' (insert_by k fresh t)
          × (evl'.map_touched ≡ true)) in
        Returns-bind (λ evl'. P v.number evl' × Turns evl v.number evl') (Looks evl v) m _
          (Returns-both (P v.number) (Turns evl v.number) m
            (subst (λ k. Returns (P k) m) (number-alloc_select_sk evl.sks fresh sk events cb) added)
            (add-Turns fuel evl fresh sk events cb))
          (λ evl' h. seen_as evl evl' v h.0.0 h.0.1 refl h.1)

    mod-Looks :
        (sk : ℕ) (events : SkEvents)
        → Can {C = C} (view evl t) (mod_socket sk events)
        → Returns
            (Looks evl (after {C = C} (view evl t) (mod_socket sk events)))
            (perform fuel (running evl) (mod_socket sk events))
    unfolding perform
    mod-Looks sk events there =
        let v = after {C = C} (view evl t) (mod_socket sk events) in
        let m = evl_select_mod_socket fuel evl sk events in
        Returns-bind _ (Looks evl v) m _
          (Returns-both (λ evl'. Watches evl' t × Asks evl t sk (some events) evl' t)
            (Turns evl (number evl)) m
            (by_found (find_sk (number evl) sk t) m there
              (evl_select_mod_socket_law evl t fuel sk events w (omega (arith, enough))))
            (mod-Turns fuel evl sk events))
          (λ evl' h. seen_as evl evl' v h.0.0 h.0.1 refl h.1)
      where
        by_found :
            (x : Option ℕ) (m : Run (EvlSelect C))
            → is_some x ≡ true
            → Mods evl t sk events x m
            → Returns (λ evl'. Watches evl' t × Asks evl t sk (some events) evl' t) m
        by_found none m e h = cc
        by_found (some a) m e h = Returns-imp _ _ m h (λ evl' q. (q.0, q.1))

    del-Looks :
        (sk : ℕ)
        → Can {C = C} (view evl t) (del_socket sk)
        → Returns
            (Looks evl (after {C = C} (view evl t) (del_socket sk)))
            (perform fuel (running evl) (del_socket sk))
    unfolding perform
    del-Looks sk single =
        let v = after {C = C} (view evl t) (del_socket sk) in
        let m = evl_select_del_socket fuel evl sk in
        Returns-bind _ (Looks evl v) m _
          (Returns-both (λ evl'. Watches evl' v.tree × Asks evl t sk none evl' v.tree)
            (Turns evl (number evl)) m
            (by_found (find_sk (number evl) sk t) m single (
              evl_select_del_socket_law fuel sk evl t w enough
                (at_most_one (find_sk (number evl) sk t) single)))
            (del-Turns fuel evl sk))
          (λ evl' h. seen_as evl evl' v h.0.0 h.0.1 refl h.1)
      where
        at_most_one : (x : Option ℕ) → Single (number evl) t x → HasOneChild evl t x
        at_most_one none h = elim h [ ]
        at_most_one (some a) h = h

        by_found :
            (x : Option ℕ) (m : Run (EvlSelect C))
            → Single (number evl) t x
            → Dels evl t sk x m
            → Returns
                (λ evl'.
                  Watches evl' (without (number evl) t x)
                  × Asks evl t sk none evl' (without (number evl) t x))
                m
        by_found none m e h = elim e [ ]
        by_found (some a) m e h = Returns-imp _ _ m h (λ evl' q. (q.0, q.1))

    discard-Looks :
        evl.in_callback ≡ true
        → Can {C = C} (view evl t) discard
        → Returns
            (Looks evl (after {C = C} (view evl t) discard))
            (perform fuel (running evl) discard)
    unfolding perform evl_select_discard
    discard-Looks e alive =
        rw
          (assert_holds (not evl.dead)
            (if evl.in_callback then ok (running marked) else dispose fuel marked) (ap not alive))
          (by_place evl.in_callback e)
      where
        marked : EvlSelect C
        marked = record evl { dead = true }

        marked-Watches : Watches marked t
        marked-Watches =
            Masks-Watches evl marked t
              (record { sets = (refl, refl, refl, refl, refl); sk = λ b. refl; events = λ b. refl })
              w

        by_place :
            (b : Bool)
            → b ≡ true
            → Returns
                (Looks evl (after {C = C} (view evl t) discard))
                (if b then ok (running marked) else dispose fuel marked)
        by_place true e = (marked-Watches, refl, inr (refl, refl, λ a. refl), refl)
        by_place false e = cc

    pub perform-Looks :
        (request : Request C)
        → evl.in_callback ≡ true
        → Can {C = C} (view evl t) request
        → Returns
            (Looks evl (after {C = C} (view evl t) request))
            (perform fuel (running evl) request)
    unfolding perform evl_select_add_socket
    perform-Looks (add_socket none sk events cb) e can =
        (w, refl, inr (refl, refl, λ a. refl), refl)
    perform-Looks (add_socket (some fresh) sk events cb) e can = add-Looks fresh sk events cb can
    perform-Looks (mod_socket sk events) e can = mod-Looks sk events can
    perform-Looks (del_socket sk) e can = del-Looks sk can
    perform-Looks discard e can = discard-Looks e can
