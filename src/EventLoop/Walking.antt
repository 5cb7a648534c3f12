-- ===== src/EventLoop/Walking.antt =====
-- The walk of the dispatch of evl_select_monitor() (src/evl/src.linux/event_loop_select.c), where
-- it is and where it ends.
use mathlib.Core.Path.{subst}
use tcp_striper.Base.{
  ℕ, ◌+◌, ◌<◌, ◌≡◌, refl, sym, ap, ◌∙◌, inl, inr, Bool, true, false, Option, none, some, List, [],
  ◌∷◌, ◌++◌, append_assoc, All, ◌⊎◌, ◌≤◌, length, arith,
}
use tcp_striper.Run.{ok}
use tcp_striper.Socket.{SkEvents}
use tcp_striper.Map.{MapHead, map_walk}
use tcp_striper.Map.Find.{Tree, leaf, node, size, Forms}
use tcp_striper.Map.Zipper.{inorder}
use tcp_striper.Map.Walk.{first, map_walk-first, map_walk-next}
use tcp_striper.EventLoop.{EvlSelect, Left, running, disposed}
use tcp_striper.EventLoop.Watches.{Watches}
use tcp_striper.EventLoop.Like.{Masks-Watches}
use tcp_striper.EventLoop.Monitor.{Outside, no_events, set_have, FdSets, Timeval, any_event}
use tcp_striper.EventLoop.Effects.{Notices}
use tcp_striper.EventLoop.View.{View, CanAll, after_all, view}
use tcp_striper.EventLoop.Calls.{run_calls, LedBy, quiet_kept}
use tcp_striper.EventLoop.Dispatch.{Quiet, All-imp}
use tcp_striper.EventLoop.Gather.{haves, set_have-same}
use tcp_striper.Map.Order.{All-append}

-- The pointers form only one tree.
Forms-unique : (m : MapHead) (x p q : Option ℕ) (t u : Tree) → Forms m x p t → Forms m x q u → t ≡ u
Forms-unique m x p q leaf leaf f g = refl
Forms-unique m x p q leaf (node l a r) f g = cc
Forms-unique m x p q (node l a r) leaf f g = cc
Forms-unique m x p q (node l a r) (node l' b r') (here, up, left, right)
      (there, up', left', right') =
    let e : b ≡ a = cc in
    let left'' = subst (λ c. Forms m (m.items c).l (some c) l') e left' in
    let right'' = subst (λ c. Forms m (m.items c).r (some c) r') e right' in
    λ i.
      node (Forms-unique m (m.items a).l (some a) (some a) l l' left left'' i) (sym e i)
        (Forms-unique m (m.items a).r (some a) (some a) r r' right right'' i)

module _ {C W : Type 0} (outside : Outside C W) (rounds : ℕ) (Inv : W → View → Type 0) where
  -- What the callbacks keep to, in a world and a view of the loop that go together: there is
  -- fuel for the sockets and calls, the calls keep to the rules, and the world and the view
  -- still go together when the callback returns, or select().
  pub record Rules : Type 0 where
    pub fits : (world : W) (v : View) → Inv world v → size v.tree < rounds
    pub keeps :
        (cb : C) (events : SkEvents) (world : W) (v : View)
        → Inv world v
        → let called = outside.call cb events world in
          CanAll v called.1
          × (size v.tree + length called.1 < rounds)
          × Inv called.0 (after_all v called.1)
    pub selects :
        (nfds : ℕ) (given : Option FdSets) (tv : Timeval) (world : W) (v : View)
        → Inv world v
        → Inv (outside.select nfds given tv world).0 v

  -- How the dispatch ends after the callbacks `calls`, of `active` sockets that have events: the loop
  -- is in step, is not dead and goes with the world, and there were as many callbacks, or no
  -- socket has events that are still to be told; or a callback has discarded it, and its sockets
  -- are freed.
  abbrev pub Ended : ℕ → List (C × SkEvents) → W × Left C × Bool → Type 0
  Ended active calls (world, running evl, r) =
      (r ≡ true)
      × (evl.dead ≡ false)
      × ((t : Tree) × Watches evl t
          × Inv world (view evl t)
          × ((length calls ≡ active) ⊎ All (Quiet (haves evl)) (inorder t)))
  Ended active calls (world, disposed freed, r) =
      (r ≡ false) × ((v : View) × Inv world v × (v.dead ≡ true) × (freed ≡ inorder v.tree))

  -- And the world is as the callbacks leave it, the first of which is that of the first socket that
  -- has events; each is told of some.
  abbrev pub Settled : W → (ℕ → C) → (ℕ → SkEvents) → List ℕ → ℕ → W × Left C × Bool → Type 0
  Settled start cb have ys active q =
      (calls : List (C × SkEvents)) × (q.0 ≡ run_calls outside calls start)
      × (length calls ≤ active)
      × All (λ c. any_event c.1 ≡ true) calls
      × LedBy cb have ys calls
      × Ended active calls q

  -- The walk is between `xs` and `ys`.
  pub record Going (world : W) (evl : EvlSelect C) (t : Tree) (mi : Option ℕ) (xs ys : List ℕ)
      : Type 0 where
    pub watches : Watches evl t
    pub inv : Inv world (view evl t)
    pub alive : evl.dead ≡ false
    pub told : All (Quiet (haves evl)) xs
    pub split : inorder t ≡ xs ++ ys
    pub next : map_walk rounds evl.sockets mi ≡ ok (first ys)

  module _ (rules : Rules) where
    pub after_item :
        (world : W) (evl : EvlSelect C) (t : Tree) (mi : Option ℕ) (xs ys : List ℕ) (a : ℕ)
        → Going world evl t mi xs (a ∷ ys)
        → map_walk rounds evl.sockets (some a) ≡ ok (first ys)
    after_item world evl t mi xs ys a g =
        let fits = rules.fits world (view evl t) g.inv in
        map_walk-next evl.sockets rounds t g.watches.forms g.watches.distinct (omega (arith, fits))
          xs ys a g.split

    pub moved :
        (world : W) (evl : EvlSelect C) (t : Tree) (mi : Option ℕ) (xs ys : List ℕ) (a : ℕ)
        → Going world evl t mi xs (a ∷ ys)
        → any_event (haves evl a) ≡ false
        → Going world evl t (some a) (xs ++ (a ∷ [])) ys
    moved world evl t mi xs ys a g quiet = record {
      watches = g.watches;
      inv = g.inv;
      alive = g.alive;
      told = All-append (Quiet (haves evl)) xs (a ∷ []) g.told (quiet, tt);
      split = g.split ∙ sym (append_assoc xs (a ∷ []) ys);
      next = after_item world evl t mi xs ys a g;
    }

    pub again :
        (world : W) (evl : EvlSelect C) (t : Tree)
        → Watches evl t
        → Inv world (view evl t)
        → evl.dead ≡ false
        → Going world (record evl { map_touched = false }) t none [] (inorder t)
    again world evl t w inv alive = record {
      watches =
          Masks-Watches evl (record evl { map_touched = false }) t
            (record { sets = (refl, refl, refl, refl, refl); sk = λ b. refl; events = λ b. refl })
            w;
      inv = inv;
      alive = alive;
      told = tt;
      split = refl;
      next =
          let fits = rules.fits world (view evl t) inv in
          map_walk-first evl.sockets rounds t w.forms (omega (arith, fits));
    }

    -- A callback that has not touched the map leaves the walk where it was.
    pub same_place :
        (world world' : W) (evl evl' : EvlSelect C) (t t' : Tree) (mi : Option ℕ) (xs ys : List ℕ)
        (a : ℕ)
        → Going world evl t mi xs (a ∷ ys)
        → Watches evl' t'
        → Inv world' (view evl' t')
        → evl'.dead ≡ false
        → Notices (set_have evl a no_events) evl'
        → evl'.map_touched ≡ false
        → Going world' evl' t' (some a) (xs ++ (a ∷ [])) ys
    same_place world world' evl evl' t t' mi xs ys a g w inv alive (inl y) n = cc
    same_place world world' evl evl' t t' mi xs ys a g w inv alive (inr (sockets, touched, have))
          n =
        let f = subst (λ m. Forms m m.root none t') sockets w.forms in
        let e = Forms-unique evl.sockets evl.sockets.root none none t t' g.watches.forms f in
        record {
          watches = w;
          inv = inv;
          alive = alive;
          told =
              All-append (Quiet (haves evl')) xs (a ∷ [])
                (All-imp (Quiet (haves evl)) (Quiet (haves evl')) xs (quiet_kept evl evl' a have)
                  g.told)
                (ap any_event (have a ∙ set_have-same evl a no_events), tt);
          split = ap inorder (sym e) ∙ g.split ∙ sym (append_assoc xs (a ∷ []) ys);
          next = ap (λ s. map_walk rounds s (some a)) sockets ∙ after_item world evl t mi xs ys a g;
        }
