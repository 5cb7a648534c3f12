-- ===== src/EventLoop/Restart.antt =====
-- The dispatch of evl_select_monitor() (src/evl/src.linux/event_loop_select.c) when callbacks add
-- and delete sockets, so that the walk starts again, or discard the loop.
use mathlib.Core.Path.{subst}
use tcp_striper.Base.{
  ℕ, zero, suc, ◌+◌, ◌-◌, ◌*◌, ◌<◌, ◌≡◌, refl, sym, ap, ◌∙◌, inl, inr, Bool, true, false, Option,
  none, some, List, [], ◌∷◌, ◌++◌, append-nil, All, ◌≤◌, length, ◌==◌, Bool-cases, arith,
}
use tcp_striper.Run.{ok, ◌>>=◌, Returns, Returns-bind, Returns-imp}
use tcp_striper.Socket.{SkEvents}
use tcp_striper.Map.Find.{Tree}
use tcp_striper.Map.Zipper.{inorder}
use tcp_striper.Map.Walk.{length-inorder}
use tcp_striper.EventLoop.{EvlSelect, Left, running, disposed, dispose}
use tcp_striper.EventLoop.Watches.{Watches}
use tcp_striper.EventLoop.Monitor.{Outside, no_events, set_have, any_event, call_back, dispatch}
use tcp_striper.EventLoop.Effects.{Notices}
use tcp_striper.EventLoop.View.{View, after_all, view}
use tcp_striper.EventLoop.Dispose.{evl_select_dispose-inorder}
use tcp_striper.EventLoop.Calls.{run_calls, LedBy-called, LedBy-quiet}
use tcp_striper.EventLoop.Dispatch.{Quiet, callbacks}
use tcp_striper.EventLoop.Gather.{haves}
use tcp_striper.EventLoop.Called.{CalledBack, call_back-CalledBack}
use tcp_striper.EventLoop.Walking.{Rules, Ended, Settled, Going, moved, again, same_place}

-- A callback pays for one walk.
laps :
    (active rounds l fuel : ℕ)
    → (active - 1 == 0) ≡ false
    → active * rounds + suc l < suc fuel
    → (active - 1) * rounds + rounds + l < fuel
laps zero rounds l fuel z h = ground arith
laps (suc n) rounds l fuel z h =
    let e : suc n - 1 ≡ n = omega arith in
    let m : suc n * rounds ≡ n * rounds + rounds = grind arith in rw e (omega (arith, h, m))

module _ {C W : Type 0} (outside : Outside C W) (rounds : ℕ) (Inv : W → View → Type 0)
    (rules : Rules outside rounds Inv) where
  -- What comes after a callback, of `active` that are due with it.
  abbrev Followed : ℕ → C × SkEvents → W → W × Left C × Bool → Type 0
  Followed active call world q =
      (calls : List (C × SkEvents)) × (q.0 ≡ run_calls outside calls world)
      × (suc (length calls) ≤ active)
      × All (λ c. any_event c.1 ≡ true) calls
      × Ended outside rounds Inv active (call ∷ calls) q

  Ended-suc :
      (active : ℕ) (call : C × SkEvents) (calls : List (C × SkEvents)) (q : W × Left C × Bool)
      → 0 < active
      → Ended outside rounds Inv (active - 1) calls q
      → Ended outside rounds Inv active (call ∷ calls) q
  Ended-suc active call calls (world, running evl, r) pos (good, alive, (t, w, inv, inl all)) =
      (good, alive, (t, w, inv, inl (omega (arith, all, pos))))
  Ended-suc active call calls (world, running evl, r) pos (good, alive, (t, w, inv, inr quiet)) =
      (good, alive, (t, w, inv, inr quiet))
  Ended-suc active call calls (world, disposed freed, r) pos h = h

  -- A callback has discarded the loop.
  thrown_away :
      (world : W) (evl : EvlSelect C) (t : Tree) (active : ℕ) (call : C × SkEvents)
      → Watches evl t
      → Inv world (view evl t)
      → evl.dead ≡ true
      → 0 < active
      → Returns
          (Followed active call world)
          (dispose rounds evl >>= λ left. ok (world, left, false))
  unfolding dispose
  thrown_away world evl t active call w inv d pos =
      let fits = rules.fits world (view evl t) inv in
      rw
        (evl_select_dispose-inorder rounds rounds evl t w.forms w.ordered (omega (arith, fits))
          fits)
        ([], refl, omega (arith, pos), tt, (refl, (view evl t, inv, d, refl)))

  -- The dispatch settles with this fuel, wherever the walk is.
  abbrev Settles : ℕ → Type 0
  Settles fuel =
      (world : W) (evl : EvlSelect C) (t : Tree) (mi : Option ℕ) (xs ys : List ℕ) (active : ℕ)
      → Going outside rounds Inv world evl t mi xs ys
      → 0 < active
      → active * rounds + length ys < fuel
      → Returns (Settled outside rounds Inv world (callbacks outside evl) (haves evl) ys active)
          (dispatch outside rounds fuel world evl mi active)

  onward :
      (fuel : ℕ) (world world' : W) (evl evl' : EvlSelect C) (t t' : Tree) (mi : Option ℕ)
      (xs ys : List ℕ) (a active : ℕ) (call : C × SkEvents)
      → Settles fuel
      → Going outside rounds Inv world evl t mi xs (a ∷ ys)
      → Watches evl' t'
      → Inv world' (view evl' t')
      → Notices (set_have evl a no_events) evl'
      → 0 < active
      → active * rounds + length (a ∷ ys) < suc fuel
      → Returns (Followed active call world') (elim (evl'.dead) [
        | true ↦ dispose rounds evl' >>= λ left. ok (world', left, false)
        | false ↦ elim (active - 1 == 0) [
          | true ↦ ok (world', running evl', true)
          | false ↦ elim (evl'.map_touched) [
            | true ↦
                dispatch outside rounds fuel world'
                  (record evl' { map_touched = false })
                  none
                  (active - 1)
            | false ↦ dispatch outside rounds fuel world' evl' (some a) (active - 1)
          ]
        ]
      ])
  onward fuel world world' evl evl' t t' mi xs ys a active call settles g w inv noticed pos enough =
      elim (Bool-cases evl'.dead) [
        | inl d ↦ rw (Returns, d) (thrown_away world' evl' t' active call w inv d pos)
        | inr d ↦ elim (Bool-cases (active - 1 == 0)) [
          | inl z ↦
              let one : 1 ≡ active = ground (arith, pos) in
              rw (Returns, d, z)
                ([], refl, omega (arith, one), tt, (refl, d, (t', w, inv, inl one)))
          | inr z ↦
              let more = laps active rounds (length ys) fuel z enough in
              let pos' : 0 < active - 1 = ground (arith, z) in
              elim (Bool-cases evl'.map_touched) [
                | inl m ↦
                    let fits = rules.fits world' (view evl' t') inv in
                    let touched : EvlSelect C = record evl' { map_touched = false } in
                    rw (Returns, d, z, m)
                      (Returns-imp _ (Followed active call world')
                        (dispatch outside rounds fuel world' touched none (active - 1))
                        (settles world' touched t' none [] (inorder t') (active - 1)
                          (again outside rounds Inv rules world' evl' t' w inv d) pos'
                          (omega (arith, more, length-inorder t', fits)))
                        (followed (callbacks outside evl') (haves evl') (inorder t')))
                | inr m ↦
                    rw (Returns, d, z, m)
                      (Returns-imp _ (Followed active call world')
                        (dispatch outside rounds fuel world' evl' (some a) (active - 1))
                        (settles world' evl' t' (some a) (xs ++ (a ∷ [])) ys (active - 1)
                          (same_place outside rounds Inv rules world world' evl evl' t t' mi xs ys a
                            g w inv d noticed m)
                          pos' (omega (arith, more)))
                        (followed (callbacks outside evl') (haves evl') ys))
              ]
        ]
      ]
    where
      followed :
          (cb : ℕ → C) (have : ℕ → SkEvents) (zs : List ℕ) (q : W × Left C × Bool)
          → Settled outside rounds Inv world' cb have zs (active - 1) q
          → Followed active call world' q
      followed cb have zs q (calls, same, few, some_events, led, ended) = (
        calls,
        same,
        omega (arith, few, pos),
        some_events,
        Ended-suc active call calls q pos ended,
      )

  -- The theorem.
  pub dispatch_law : (fuel : ℕ) → Settles fuel
  unfolding dispatch
  dispatch_law zero world evl t mi xs ys active g pos enough = absurd (omega arith)
  dispatch_law (suc fuel) world evl t mi xs [] active g pos enough =
      let quiet = subst (λ l. All (Quiet (haves evl)) l) (sym (g.split ∙ append-nil xs)) g.told in
      rw (Returns, g.next)
        ([], refl, omega arith, tt, refl, (refl, g.alive, (t, g.watches, g.inv, inr quiet)))
  dispatch_law (suc fuel) world evl t mi xs (a ∷ ys) active g pos enough =
      elim (Bool-cases (any_event (haves evl a))) [
        | inl y ↦
            let call : C × SkEvents = (callbacks outside evl a, haves evl a) in
            let called = outside.call (callbacks outside evl a) (haves evl a) world in
            let v = after_all (view evl t) called.1 in
            let (can, more, inv) =
              rules.keeps (callbacks outside evl a) (haves evl a) world (view evl t) g.inv in
            rw (Returns, g.next, y)
              (Returns-bind (CalledBack outside rounds evl a v called.0) _
                (call_back outside rounds world evl a) _
                (call_back-CalledBack outside rounds evl t a g.watches world can more)
                (λ (world', evl') (came, w, seen, noticed).
                  Returns-imp (Followed active call world') _ _
                    (onward fuel world world' evl evl' t v.tree mi xs ys a active call
                      (dispatch_law fuel) g w
                      (subst (λ u. Inv world' u) (sym seen) (subst (λ u. Inv u v) (sym came) inv))
                      noticed pos enough)
                    (λ q (calls, same, few, some_events, ended). (
                      call ∷ calls,
                      same ∙ ap (run_calls outside calls) came,
                      few,
                      (y, some_events),
                      LedBy-called (callbacks outside evl) (haves evl) a ys calls y,
                      ended,
                    ))))
        | inr n ↦
            rw (Returns, g.next, n)
              (Returns-imp
                (Settled outside rounds Inv world (callbacks outside evl) (haves evl) ys active) _
                (dispatch outside rounds fuel world evl (some a) active)
                (dispatch_law fuel world evl t (some a) (xs ++ (a ∷ [])) ys active
                  (moved outside rounds Inv rules world evl t mi xs ys a g n) pos
                  (omega (arith, enough)))
                (λ q (calls, ran, few, some_events, led, ended). (
                  calls,
                  ran,
                  few,
                  some_events,
                  LedBy-quiet (callbacks outside evl) (haves evl) a ys calls n led,
                  ended,
                )))
      ]
