-- ===== src/EventLoop/Called.antt =====
-- The callback of a socket that keeps to the rules, within evl_select_monitor()
-- (src/evl/src.linux/event_loop_select.c).
use mathlib.Core.Path.{fun_ext, subst}
use tcp_striper.Base.{ℕ, ◌+◌, ◌<◌, ◌≡◌, refl, sym, true, false, List, length}
use tcp_striper.Run.{ok, ◌>>=◌, Returns, Returns-bind}
use tcp_striper.Map.Find.{Tree, size}
use tcp_striper.EventLoop.{EvlSelect, Left, running, disposed}
use tcp_striper.EventLoop.Watches.{Watches}
use tcp_striper.EventLoop.Like.{Masks, Masks-Watches, asked_same}
use tcp_striper.EventLoop.Gather.{set_have-Told}
use tcp_striper.EventLoop.Monitor.{
  Request, Outside, no_events, set_have, perform_all, out_of_callback, call_back,
}
use tcp_striper.EventLoop.Effects.{Notices}
use tcp_striper.EventLoop.View.{View, CanAll, after_all, view, Looks}
use tcp_striper.EventLoop.Requests.{perform_all_law}

module _ {C W : Type 0} (outside : Outside C W) (rounds : ℕ) where
  -- After the callback of `a` the loop is in step and looks as `v` says; a change of its map is
  -- noted, and without one only the events of `a` are told.
  abbrev pub CalledBack : EvlSelect C → ℕ → View → W → W × EvlSelect C → Type 0
  CalledBack evl a v world (world', evl') =
      (world' ≡ world)
      × Watches evl' v.tree
      × (view evl' v.tree ≡ v)
      × Notices (set_have evl a no_events) evl'

  module _ (evl : EvlSelect C) (t : Tree) (a : ℕ) (w : Watches evl t) where
    abbrev calling : EvlSelect C
    calling = record (set_have evl a no_events) { in_callback = true }

    calling-Masks : Masks evl calling
    calling-Masks =
        let m = (set_have-Told evl a no_events).masks in
        record { sets = m.sets; sk = m.sk; events = m.events }

    view_calling : view calling t ≡ view evl t
    view_calling =
        let m = calling-Masks in
        λ i. record {
          tree = t;
          number = fun_ext m.sk i;
          wanted = fun_ext (asked_same evl calling t m) i;
          dead = evl.dead;
        }

    pub call_back-CalledBack :
        (world : W)
        → let called = outside.call (evl.sks a).cb (evl.sks a).have world in
          CanAll (view evl t) called.1
          → size t + length called.1 < rounds
          → Returns
              (CalledBack evl a (after_all (view evl t) called.1) called.0)
              (call_back outside rounds world evl a)
    unfolding call_back
    call_back-CalledBack world can enough =
        Returns-bind (Looks calling (after_all (view evl t) called.1))
          (CalledBack evl a (after_all (view evl t) called.1) called.0)
          (perform_all rounds (running calling) called.1) _
          (subst
            (λ v.
              Returns (Looks calling (after_all v called.1))
                (perform_all rounds (running calling) called.1))
            view_calling
            (perform_all_law called.1 rounds calling t (Masks-Watches evl calling t calling-Masks w)
              refl (subst (λ v. CanAll v called.1) (sym view_calling) can) enough))
          ended
      where
        called : W × List (Request C)
        called = outside.call (evl.sks a).cb (evl.sks a).have world

        ended :
            (left : Left C)
            → Looks calling (after_all (view evl t) called.1) left
            → Returns
                (CalledBack evl a (after_all (view evl t) called.1) called.0)
                (out_of_callback left >>= λ evl'. ok (called.0, evl'))
        ended (disposed freed) h = elim h [ ]
        ended (running e) h = (
          refl,
          Masks-Watches e (record e { in_callback = false }) (after_all (view evl t) called.1).tree
              (record { sets = (refl, refl, refl, refl, refl); sk = λ b. refl; events = λ b. refl })
              h.0,
          h.1,
          h.2,
        )
