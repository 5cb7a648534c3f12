-- ===== src/EventLoop/Settle.antt =====
-- evl_select_monitor() (src/evl/src.linux/event_loop_select.c) with callbacks that add and delete
-- sockets, or discard the loop.
use mathlib.Core.Path.{fun_ext, subst}
use tcp_striper.Base.{
  ℕ, ◌+◌, ◌*◌, ◌≤◌, ◌<◌, ◌≡◌, refl, sym, ap, ◌∙◌, Bool, true, false, not, Option, none, List, [],
  ◌∷◌, length, ltb, lt→ltb, arith,
}
use tcp_striper.Run.{assert_holds, Returns, Returns-bind, Returns-imp}
use tcp_striper.Socket.{SkEvents}
use tcp_striper.Map.Find.{Tree}
use tcp_striper.Map.Walk.{length-inorder}
use tcp_striper.Map.Zipper.{inorder}
use tcp_striper.EventLoop.{EvlSelect, Left, running}
use tcp_striper.EventLoop.Watches.{number, Watches}
use tcp_striper.EventLoop.Like.{Masks, Masks-Watches, asked_same}
use tcp_striper.EventLoop.Gather.{haves, pending, news, gather_law}
use tcp_striper.EventLoop.Monitor.{
  FdSets, Timeval, Selected, select_failed, timed_out, ready, Outside, to_timeval, gather, dispatch,
  on_selected, selecting, evl_select_monitor,
}
use tcp_striper.EventLoop.Serve.{Answers, some_pending}
use tcp_striper.EventLoop.View.{View, view}
use tcp_striper.EventLoop.Dispatch.{callbacks}
use tcp_striper.EventLoop.Calls.{LedBy, LedBy-cong}
use tcp_striper.EventLoop.Walking.{Rules, Ended, Settled, again}
use tcp_striper.EventLoop.Restart.{dispatch_law}

pending-length : (f : ℕ → SkEvents) (xs : List ℕ) → pending f xs ≤ length xs
pending-length f [] = omega arith
pending-length f (x ∷ xs) = let rest = pending-length f xs in ground arith

times_le : (a b r : ℕ) → a ≤ b → a * r ≤ b * r
times_le a b r h = grind arith

module _ {C W : Type 0} (outside : Outside C W) (rounds : ℕ) (Inv : W → View → Type 0)
    (rules : Rules outside rounds Inv) (evl : EvlSelect C) (t : Tree) (w : Watches evl t)
    (alive : evl.dead ≡ false) where
  -- What monitor() comes to, by the answer of select().
  abbrev pub Outcome : W × Selected → W × Left C × Bool → Type 0
  Outcome (world, select_failed) q = q ≡ (world, running evl, false)
  Outcome (world, timed_out) q = q ≡ (world, running evl, true)
  Outcome (world, ready sets) q =
      let have = news sets (number evl) in
      Settled outside rounds Inv world (callbacks outside evl) have (inorder t)
        (pending have (inorder t)) q

  selected :
      (fuel : ℕ) (p : W × Selected)
      → Inv p.0 (view evl t)
      → rounds * rounds + rounds < fuel
      → Answers (selecting outside evl) p.1
      → Returns (Outcome p) (on_selected outside rounds fuel evl p)
  unfolding on_selected
  selected fuel (world, select_failed) inv enough a = refl
  selected fuel (world, timed_out) inv enough a = refl
  selected fuel (world, ready sets) inv enough a =
      let fits = rules.fits world (view evl t) inv in
      Returns-bind _ _ (gather rounds rounds sets evl none 0) _
        (gather_law rounds sets t (number evl) (omega (arith, fits)) rounds evl w refl fits)
        (λ (e, active) (told, counted, new).
          let some_counted = some_pending outside evl t rounds sets w a in
          let pos : 0 < active = omega (arith, counted) in
          let masks : Masks evl e = record {
            sets = told.masks.sets;
            sk = told.masks.sk;
            events = told.masks.events;
          } in
          let same : view e t ≡ view evl t = λ i. record {
            tree = t;
            number = fun_ext masks.sk i;
            wanted = fun_ext (asked_same evl e t masks) i;
            dead = told.dead i;
          } in
          let few = pending-length (news sets (number evl)) (inorder t) in
          let long = length-inorder t in
          let le : active ≤ rounds = omega (arith, counted, few, long, fits) in
          rw
            (assert_holds (ltb 0 active)
              (dispatch outside rounds fuel world (record e { map_touched = false }) none active)
              (lt→ltb 0 active pos))
            (Returns-imp _ (Outcome (world, ready sets))
              (dispatch outside rounds fuel world (record e { map_touched = false }) none active)
              (dispatch_law outside rounds Inv rules fuel world (record e { map_touched = false }) t
                none [] (inorder t) active
                (again outside rounds Inv rules world e t (Masks-Watches evl e t masks w)
                  (subst (λ v. Inv world v) (sym same) inv) (told.dead ∙ alive))
                pos (omega (arith, times_le active rounds rounds le, long, fits, enough)))
              (λ q (calls, ran, few, some_events, led, ended). (
                calls,
                ran,
                omega (arith, few, counted),
                some_events,
                LedBy-cong (callbacks outside evl) (haves e) (news sets (number evl)) (inorder t)
                    calls new
                    (subst (λ cb. LedBy cb (haves e) (inorder t) calls) (fun_ext told.cb) led),
                subst (λ n. Ended outside rounds Inv n calls q) counted ended,
              ))))

  -- When the sets and nfds of the loop are in step with its sockets, a tree in order, the loop
  -- is not dead and not in a callback, select() reports only what it was asked about, and
  -- something unless it fails or times out, and the callbacks keep to rules, then monitor()
  -- comes to an end, with fuel for more rounds in each walk than there are ever sockets and
  -- calls, and for that number squared and once more in the walk that calls back. It returns
  -- -1 with the loop as it was if select() fails, and 0 with the loop as it was if it times
  -- out. Otherwise the world is as select() and then the callbacks left it, each told of some
  -- event, the first of them being that of the first socket in the tree that select()
  -- reported, told of the events that were reported, and no more of them than sockets that
  -- were reported. It returns 0 with the loop in step, not dead and going with the world, and
  -- then there were as many callbacks as sockets that were reported, or no socket has events
  -- that are still to be told; or it returns -1, with each of its sockets freed once, and then
  -- a callback had discarded the loop. The rules, which are given by a relation of the world
  -- and the view of the loop that select() keeps, are those of the calls that callbacks make
  -- one after the other: sockets that are added are new, in new memory and with descriptors
  -- below FD_SETSIZE, ones that are changed or deleted are there, with at most one child if
  -- they are deleted, and the loop is discarded at most once; the relation holds again after
  -- the callback.
  pub evl_select_monitor-Outcome :
      (fuel timeout_ms : ℕ) (world : W)
      → Inv world (view evl t)
      → evl.in_callback ≡ false
      → ((nfds : ℕ) (given : Option FdSets) (tv : Timeval) (world : W)
          → Answers given (outside.select nfds given tv world).1)
      → rounds * rounds + rounds < fuel
      → Returns
          (Outcome (outside.select evl.nfds (selecting outside evl) (to_timeval timeout_ms) world))
          (evl_select_monitor outside rounds fuel evl timeout_ms world)
  unfolding evl_select_monitor
  evl_select_monitor-Outcome fuel timeout_ms world inv idle answers enough =
      let given = selecting outside evl in
      let tv = to_timeval timeout_ms in
      let p = outside.select evl.nfds given tv world in
      rw (assert_holds (not evl.in_callback) (on_selected outside rounds fuel evl p) (ap not idle))
        (selected fuel p (rules.selects evl.nfds given tv world (view evl t) inv) enough
          (answers evl.nfds given tv world))
