-- ===== src/EventLoop/Serve.antt =====
-- evl_select_monitor() (src/evl/src.linux/event_loop_select.c) with callbacks that only change masks.
use mathlib.Core.Path.{fun_ext, subst}
use tcp_striper.Base.{
  ℕ, ◌+◌, ◌<◌, ◌≡◌, refl, sym, ap, ◌∙◌, inl, inr, Bool, true, false, not, Option, none, some,
  is_some, List, [], ◌∷◌, ◌++◌, All, ◌==◌, ltb, lt→ltb, if◌then◌else◌, Bool-cases, Option-cases,
  arith, if_true, if_false,
}
use tcp_striper.Run.{assert_holds, Returns, Returns-bind}
use tcp_striper.Socket.{SkEvents}
use tcp_striper.Map.{Compared, below, same, above}
use tcp_striper.Map.Find.{Tree, leaf, node, size}
use tcp_striper.Map.Walk.{map_walk-first, length-inorder}
use tcp_striper.Map.Zipper.{inorder}
use tcp_striper.EventLoop.{EvlSelect, sk_order, Left, running}
use tcp_striper.EventLoop.Find.{find_sk, find_sk-has}
use tcp_striper.EventLoop.Watches.{wants, number, events_of, Watches}
use tcp_striper.EventLoop.Like.{Masks-Watches}
use tcp_striper.EventLoop.Gather.{pending, pending-cong, haves, told_by, news, Told, gather_law}
use tcp_striper.EventLoop.Steady.{IsMask}
use tcp_striper.EventLoop.Dispatch.{Served, served, served-cong, callbacks, dispatch-Served}
use tcp_striper.EventLoop.Monitor.{
  FdSets, Timeval, Selected, select_failed, timed_out, ready, Outside, any_event, to_timeval,
  gather, dispatch, on_selected, selecting, evl_select_monitor,
}

-- select() reports what it was asked for, and something, if it does not fail or time out.
abbrev pub Within : FdSets → FdSets → Type 0
Within got given =
    (n : ℕ)
    → (got.r n ≡ true → given.r n ≡ true)
      × (got.w n ≡ true → given.w n ≡ true)
      × (got.x n ≡ true → given.x n ≡ true)

abbrev pub Answers : Option FdSets → Selected → Type 0
Answers given select_failed = Unit {0}
Answers given timed_out = Unit {0}
Answers none (ready got) = ⊥
Answers (some given) (ready got) = Within got given × ((n : ℕ) × (any_event (told_by got n) ≡ true))

pending-append :
    (f : ℕ → SkEvents) (xs ys : List ℕ) → pending f (xs ++ ys) ≡ pending f xs + pending f ys
pending-append f [] ys = omega arith
pending-append f (x ∷ xs) ys = omega (arith, pending-append f xs ys)

one_more : (b : Bool) (p q : ℕ) → b ≡ true → 0 < p + ((if b then 1 else 0) + q)
one_more b p q e = ground arith

-- A socket with events is counted.
pending-found :
    (f : ℕ → SkEvents) (k : ℕ → ℕ) (n a : ℕ) (t : Tree)
    → find_sk k n t ≡ some a
    → any_event (f a) ≡ true
    → 0 < pending f (inorder t)
pending-found f k n a leaf e h = cc
pending-found f k n a (node l b r) e h = rw (pending-append f (inorder l) (b ∷ inorder r)) (
    by_order (sk_order n (k b)) e (λ x. pending-found f k n a l x h)
      (λ x. pending-found f k n a r x h))
  where
    by_order :
        (o : Compared)
        → elim o [ same ↦ some b | below ↦ find_sk k n l | above ↦ find_sk k n r ] ≡ some a
        → (find_sk k n l ≡ some a → 0 < pending f (inorder l))
        → (find_sk k n r ≡ some a → 0 < pending f (inorder r))
        → 0 < pending f (inorder l) + ((if any_event (f b) then 1 else 0) + pending f (inorder r))
    by_order same e left right =
        let x : b ≡ a = cc in one_more (any_event (f b)) _ _ (ap (λ c. any_event (f c)) x ∙ h)
    by_order below e left right = let x = left e in omega arith
    by_order above e left right = let x = right e in omega arith

module _ {C W : Type 0} (outside : Outside C W) (evl : EvlSelect C) (t : Tree) (rounds : ℕ) where
  -- What select() reports is of sockets in the loop.
  some_socket :
      (got : FdSets) (n : ℕ)
      → Watches evl t
      → Within got (record { r = evl.fds_r; w = evl.fds_w; x = evl.fds_x })
      → any_event (told_by got n) ≡ true
      → is_some (find_sk (number evl) n t) ≡ true
  some_socket got n w within h =
      by_found (find_sk (number evl) n t) (within n) h (w.reads n) (w.writes n) (w.errors n)
    where
      by_found :
          (x : Option ℕ)
          → (got.r n ≡ true → evl.fds_r n ≡ true)
            × (got.w n ≡ true → evl.fds_w n ≡ true)
            × (got.x n ≡ true → evl.fds_x n ≡ true)
          → any_event (told_by got n) ≡ true
          → evl.fds_r n ≡ wants (λ (e : SkEvents). e.readable) (events_of evl.sks x)
          → evl.fds_w n ≡ wants (λ (e : SkEvents). e.writable) (events_of evl.sks x)
          → evl.fds_x n ≡ is_some (events_of evl.sks x)
          → is_some x ≡ true
      by_found none asks h r w x = ground arith
      by_found (some a) asks h r w x = refl

  pub some_pending :
      (sets : FdSets)
      → Watches evl t
      → Answers (selecting outside evl) (ready sets)
      → 0 < pending (news sets (number evl)) (inorder t)
  some_pending sets w a = elim (Bool-cases (evl.nfds == 0)) [
    | inl y ↦ absurd (subst (λ g. Answers g (ready sets)) (if_true (evl.nfds == 0) _ y) a)
    | inr n ↦ counted (subst (λ g. Answers g (ready sets)) (if_false (evl.nfds == 0) none n) a)
  ]
    where
      counted :
          Answers (some (record { r = evl.fds_r; w = evl.fds_w; x = evl.fds_x })) (ready sets)
          → 0 < pending (news sets (number evl)) (inorder t)
      counted (within, (n, events)) =
          let is_there = some_socket sets n w within events in
          elim (Option-cases (find_sk (number evl) n t)) [
            | inl missing ↦ let clash = rw missing at is_there in cc
            | inr (b, found) ↦ pending-found (news sets (number evl)) (number evl) n b t found (
                ap (λ d. any_event (told_by sets d)) (find_sk-has (number evl) n t b found)
                ∙ events)
          ]

  abbrev pub Monitored : W × Selected → W × Left C × Bool → Type 0
  Monitored (w, select_failed) q = q ≡ (w, running evl, false)
  Monitored (w, timed_out) q = q ≡ (w, running evl, true)
  Monitored (w, ready sets) q =
      Served t (number evl)
        (served outside (callbacks outside evl) (news sets (number evl)) (inorder t) w) q

  module _
      (steady : (cb : C) (events : SkEvents) (world : W)
        → All (IsMask (number evl) t) (outside.call cb events world).1)
      (w : Watches evl t) (alive : evl.dead ≡ false) (more : size t < rounds) where
    gathered :
        (fuel : ℕ) (world : W) (sets : FdSets) (e : EvlSelect C) (active : ℕ)
        → size t < fuel
        → 0 < active
        → Told evl e
        → active ≡ pending (news sets (number evl)) (inorder t)
        → All (λ a. haves e a ≡ news sets (number evl) a) (inorder t)
        → Returns
            (Monitored (world, ready sets))
            (dispatch outside rounds fuel world (record e { map_touched = false }) none active)
    gathered fuel world sets e active enough pos told counted new =
        let e' = record e { map_touched = false } in
        let w' : Watches e' t =
          Masks-Watches evl e' t
            (record { sets = told.masks.sets; sk = told.masks.sk; events = told.masks.events }) w in
        subst
          (λ v.
            Returns (Served t (number evl) v) (dispatch outside rounds fuel world e' none active))
          (ap (λ cb. served outside cb (haves e) (inorder t) world) (fun_ext told.cb)
            ∙ served-cong outside (callbacks outside evl) (haves e) (news sets (number evl))
                (inorder t) world new)
          (dispatch-Served outside t (number evl) rounds (omega arith) steady fuel world e' none []
            (inorder t) active
            (record {
              watches = w';
              numbers = fun_ext told.masks.sk;
              split = refl;
              told = tt;
              counted =
                  counted ∙ sym (pending-cong (haves e) (news sets (number evl)) (inorder t) new);
              untouched = refl;
              alive = told.dead ∙ alive;
            })
            (map_walk-first e'.sockets rounds t w'.forms (omega arith))
            (omega (arith, length-inorder t)) pos)

    selected :
        (fuel : ℕ) (p : W × Selected)
        → size t < fuel
        → Answers (selecting outside evl) p.1
        → Returns (Monitored p) (on_selected outside rounds fuel evl p)
    unfolding on_selected
    selected fuel (world, select_failed) enough a = refl
    selected fuel (world, timed_out) enough a = refl
    selected fuel (world, ready sets) enough a =
        Returns-bind _ _ (gather rounds rounds sets evl none 0) _
          (gather_law rounds sets t (number evl) (omega arith) rounds evl w refl more)
          (λ q h.
            let some_counted = some_pending sets w a in
            let pos : 0 < q.1 = omega (arith, h.1) in
            rw
              (assert_holds (ltb 0 q.1)
                (dispatch outside rounds fuel world (record q.0 { map_touched = false }) none q.1)
                (lt→ltb 0 q.1 pos))
              (gathered fuel world sets q.0 q.1 enough pos h.0 h.1 h.2))

    -- When the sets and nfds of the loop are in step with its sockets, a tree in order, the
    -- loop is not dead and not in a callback, select() reports only what it was asked about,
    -- and something unless it fails or times out, and callbacks only change masks of sockets
    -- in the loop, then monitor() with fuel for more rounds than there are sockets comes to an
    -- end: it returns -1 with the loop untouched if select() fails, 0 with the loop untouched
    -- if it times out, and otherwise returns 0 after it has called each socket that select()
    -- reported once, with the events that were reported, in the order of the tree; the loop is
    -- in step again, with the same descriptors, and has no events left to tell.
    pub evl_select_monitor_law :
        (fuel timeout_ms : ℕ) (world : W)
        → evl.in_callback ≡ false
        → ((nfds : ℕ) (given : Option FdSets) (tv : Timeval) (world : W)
            → Answers given (outside.select nfds given tv world).1)
        → size t < fuel
        → Returns
            (Monitored
              (outside.select evl.nfds (selecting outside evl) (to_timeval timeout_ms) world))
            (evl_select_monitor outside rounds fuel evl timeout_ms world)
    unfolding evl_select_monitor
    evl_select_monitor_law fuel timeout_ms world idle answers enough =
        rw
          (assert_holds (not evl.in_callback)
            (on_selected outside rounds fuel evl
              (outside.select evl.nfds (selecting outside evl) (to_timeval timeout_ms) world))
            (ap not idle))
          (selected fuel
            (outside.select evl.nfds (selecting outside evl) (to_timeval timeout_ms) world) enough
            (answers _ _ _ _))
