-- ===== src/EventLoop/Dispatch.antt =====
-- The dispatch of evl_select_monitor() (src/evl/src.linux/event_loop_select.c) when the callbacks
-- only change masks.
use mathlib.Core.Path.{fun_ext, subst}
use tcp_striper.Base.{
  ℕ, zero, suc, ◌+◌, ◌-◌, ◌≤◌, ◌<◌, ◌≡◌, ◌≢◌, refl, sym, ap, ◌∙◌, Bool, true, false, Option, some,
  List, [], ◌∷◌, ◌++◌, append_assoc, All, length, ◌==◌, if◌then◌else◌, Bool-cases, inl, inr, ==_iff,
  arith,
}
use tcp_striper.Run.{ok, Returns, Returns-bind}
use tcp_striper.Socket.{SkEvents}
use tcp_striper.Map.{map_walk}
use tcp_striper.Map.Find.{Tree, size}
use tcp_striper.Map.Walk.{first, map_walk-next}
use tcp_striper.Map.Zipper.{inorder}
use tcp_striper.Map.Order.{All-append, others_after}
use tcp_striper.EventLoop.{EvlSelect, Left, running, disposed}
use tcp_striper.EventLoop.Watches.{number, Watches}
use tcp_striper.EventLoop.Like.{Like}
use tcp_striper.EventLoop.Gather.{
  pending, pending-cong, haves, set_have-same, set_have-other, set_have-Told,
}
use tcp_striper.EventLoop.Steady.{IsMask, call_back-Like}
use tcp_striper.EventLoop.Monitor.{Outside, any_event, no_events, set_have, call_back, dispatch}

pub All-imp {ℓ κ μ} :
    {A : Type ℓ} (P : A → Type κ) (Q : A → Type μ) (xs : List A)
    → ((a : A) → P a → Q a)
    → All P xs
    → All Q xs
All-imp P Q [] f h = tt
All-imp P Q (x ∷ xs) f h = (f x h.0, All-imp P Q xs f h.1)

-- The socket has no events that are still to be told.
abbrev pub Quiet : (ℕ → SkEvents) → ℕ → Type 0
Quiet have a = any_event (have a) ≡ false

pending-zero : (have : ℕ → SkEvents) (ys : List ℕ) → pending have ys ≡ 0 → All (Quiet have) ys
pending-zero have [] h = tt
pending-zero have (a ∷ ys) h = by_test (any_event (have a)) refl (pending-zero have ys) h
  where
    by_test :
        (b : Bool)
        → any_event (have a) ≡ b
        → (pending have ys ≡ 0 → All (Quiet have) ys)
        → (if b then 1 else 0) + pending have ys ≡ 0
        → All (Quiet have) (a ∷ ys)
    by_test true e rest h = absurd (omega arith)
    by_test false e rest h = (e, rest (omega arith))

-- All callbacks are served, and the loop is left in step, with nothing to be told.
abbrev pub LeftQuiet : {C : Type 0} → Tree → (ℕ → ℕ) → Left C → Type 0
LeftQuiet t k (running e) =
    Watches e t × (number e ≡ k) × All (λ a. any_event (haves e a) ≡ false) (inorder t)
LeftQuiet t k (disposed freed) = ⊥

abbrev pub Served : {C W : Type 0} → Tree → (ℕ → ℕ) → W → W × Left C × Bool → Type 0
Served t k world q = (q.2 ≡ true) × (q.0 ≡ world) × LeftQuiet t k q.1

module _ {C W : Type 0} (outside : Outside C W) where
  -- The callbacks of the sockets that have events, one after the other.
  abbrev pub served : (ℕ → C) → (ℕ → SkEvents) → List ℕ → W → W
  served cb have [] world = world
  served cb have (a ∷ ys) world =
      served cb have ys
        (if any_event (have a) then (outside.call (cb a) (have a) world).0 else world)

  served_quiet :
      (cb : ℕ → C) (have : ℕ → SkEvents) (ys : List ℕ) (world : W)
      → All (Quiet have) ys
      → served cb have ys world ≡ world
  served_quiet cb have [] world h = refl
  served_quiet cb have (a ∷ ys) world h = rw h.0 (served_quiet cb have ys world h.1)

  pub served-cong :
      (cb : ℕ → C) (f g : ℕ → SkEvents) (ys : List ℕ) (world : W)
      → All (λ b. f b ≡ g b) ys
      → served cb f ys world ≡ served cb g ys world
  served-cong cb f g [] world h = refl
  served-cong cb f g (a ∷ ys) world h =
      (λ i.
        served cb f ys (if any_event (h.0 i) then (outside.call (cb a) (h.0 i) world).0 else world))
      ∙ served-cong cb f g ys _ h.1

  abbrev pub callbacks : EvlSelect C → ℕ → C
  callbacks evl a = (evl.sks a).cb

  module _ (t : Tree) (k : ℕ → ℕ) (rounds : ℕ) (enough : size t ≤ rounds)
      (steady : (cb : C) (events : SkEvents) (world : W)
        → All (IsMask k t) (outside.call cb events world).1) where
    -- What is known in the walk, before the items `ys`.
    pub record Going (evl : EvlSelect C) (xs ys : List ℕ) (active : ℕ) : Type 0 where
      pub watches : Watches evl t
      pub numbers : number evl ≡ k
      pub split : inorder t ≡ xs ++ ys
      pub told : All (Quiet (haves evl)) xs
      pub counted : active ≡ pending (haves evl) ys
      pub untouched : evl.map_touched ≡ false
      pub alive : evl.dead ≡ false

    -- The callback of an item leaves the rest as it was.
    module _ (evl e : EvlSelect C) (a : ℕ) (l : Like (set_have evl a no_events) e) where
      cleared : Quiet (haves e) a
      cleared = ap any_event (l.have a ∙ set_have-same evl a no_events)

      have_kept : (b : ℕ) → b ≢ a → haves e b ≡ haves evl b
      have_kept b n = l.have b ∙ set_have-other evl a no_events b n

      quiet_kept : (b : ℕ) → Quiet (haves evl) b → Quiet (haves e) b
      quiet_kept b q = elim (Bool-cases (b == a)) [
        | inl y ↦ subst (λ c. Quiet (haves e) c) (sym ((==_iff b a).0 y)) cleared
        | inr n ↦ ap any_event (have_kept b (λ x. ground arith)) ∙ q
      ]

    pass_quiet :
        (evl : EvlSelect C) (xs ys : List ℕ) (a active : ℕ)
        → Going evl xs (a ∷ ys) active
        → any_event (haves evl a) ≡ false
        → Going evl (xs ++ (a ∷ [])) ys active
    pass_quiet evl xs ys a active g n = record {
      watches = g.watches;
      numbers = g.numbers;
      split = g.split ∙ sym (append_assoc xs (a ∷ []) ys);
      told = All-append (Quiet (haves evl)) xs (a ∷ []) g.told (n, tt);
      counted = let c = g.counted in let c' = rw n at c in omega (arith, c');
      untouched = g.untouched;
      alive = g.alive;
    }

    module _ (evl e : EvlSelect C) (xs ys : List ℕ) (a active : ℕ)
        (g : Going evl xs (a ∷ ys) active) (l : Like (set_have evl a no_events) e) where
      agree : All (λ b. haves e b ≡ haves evl b) ys
      agree =
          All-imp (λ b. b ≢ a) (λ b. haves e b ≡ haves evl b) ys (have_kept evl e a l)
            (others_after t xs ys a g.watches.distinct g.split)

      pass_called :
          Watches e t → any_event (haves evl a) ≡ true → Going e (xs ++ (a ∷ [])) ys (active - 1)
      pass_called w y =
          let c = g.counted in
          let c' = rw y at c in
          record {
            watches = w;
            numbers =
                fun_ext (λ b. l.sk b ∙ (set_have-Told evl a no_events).masks.sk b) ∙ g.numbers;
            split = g.split ∙ sym (append_assoc xs (a ∷ []) ys);
            told =
                All-append (Quiet (haves e)) xs (a ∷ [])
                  (All-imp (Quiet (haves evl)) (Quiet (haves e)) xs (quiet_kept evl e a l) g.told)
                  (cleared evl e a l, tt);
            counted = omega (arith, c', pending-cong (haves e) (haves evl) ys agree);
            untouched = l.map_touched ∙ g.untouched;
            alive = l.dead ∙ g.alive;
          }

      served_same :
          (world : W)
          → served (callbacks e) (haves e) ys world ≡ served (callbacks evl) (haves evl) ys world
      served_same world =
          ap (λ cb. served cb (haves e) ys world)
            (fun_ext (λ b. l.cb b ∙ (set_have-Told evl a no_events).cb b))
          ∙ served-cong (callbacks evl) (haves e) (haves evl) ys world agree

    finished :
        (e : EvlSelect C) (xs ys : List ℕ) (active : ℕ)
        → Going e xs ys active
        → active ≡ 0
        → LeftQuiet t k (running e)
          × ((world : W) → served (callbacks e) (haves e) ys world ≡ world)
    finished e xs ys active g z =
        let quiet = pending-zero (haves e) ys (sym g.counted ∙ z) in
        (
          (
            g.watches,
            g.numbers,
            subst (λ l. All (Quiet (haves e)) l) (sym g.split)
                (All-append (Quiet (haves e)) xs ys g.told quiet),
          ),
          λ world. served_quiet (callbacks e) (haves e) ys world quiet,
        )

    -- The socket at the head is called, or not.
    served_head :
        (evl : EvlSelect C) (a : ℕ) (ys : List ℕ) (world : W) (b : Bool)
        → any_event (haves evl a) ≡ b
        → served (callbacks evl) (haves evl) (a ∷ ys) world
          ≡ served
              (callbacks evl)
              (haves evl)
              ys
              (if b then (outside.call (evl.sks a).cb (haves evl a) world).0 else world)
    served_head evl a ys world b e =
        ap
          (λ x.
            served (callbacks evl) (haves evl) ys
              (if x then (outside.call (evl.sks a).cb (haves evl a) world).0 else world))
          e

    pub dispatch-Served :
        (fuel : ℕ) (world : W) (evl : EvlSelect C) (mi : Option ℕ) (xs ys : List ℕ) (active : ℕ)
        → Going evl xs ys active
        → map_walk rounds evl.sockets mi ≡ ok (first ys)
        → length ys < fuel
        → 0 < active
        → Returns
            (Served t k (served (callbacks evl) (haves evl) ys world))
            (dispatch outside rounds fuel world evl mi active)
    unfolding dispatch
    dispatch-Served zero world evl mi xs ys active g next more some_left = absurd (omega arith)
    dispatch-Served (suc fuel) world evl mi xs [] active g next more some_left =
        let none_left = g.counted in absurd (omega arith)
    dispatch-Served (suc fuel) world evl mi xs (a ∷ ys) active g next more some_left =
        elim (Bool-cases (any_event (haves evl a))) [
          | inl y ↦
              rw (Returns, next, y)
                (Returns-bind _ _ (call_back outside rounds world evl a) _
                  (call_back-Like t k rounds enough outside world evl a g.watches g.numbers
                    (steady (evl.sks a).cb (evl.sks a).have world))
                  (λ q (came, w, l).
                    let e = q.1 in
                    let g' = pass_called evl e xs ys a active g l w y in
                    let world_e =
                      served_same evl e xs ys a active g l q.0
                      ∙ ap (served (callbacks evl) (haves evl) ys) came
                      ∙ sym (served_head evl a ys world true y) in
                    rw (Returns, g'.alive)
                      (elim (Bool-cases (active - 1 == 0)) [
                        | inl z ↦
                            rw (Returns, z)
                              (let (left, still) =
                                  finished e (xs ++ (a ∷ [])) ys (active - 1) g'
                                    ((==_iff (active - 1) 0).0 z) in
                                (refl, sym (still q.0) ∙ world_e, left))
                        | inr z ↦
                            rw (Returns, z, g'.untouched)
                              (subst
                                (λ v.
                                  Returns (Served t k v)
                                    (dispatch outside rounds fuel q.0 e (some a) (active - 1)))
                                world_e
                                (dispatch-Served fuel q.0 e (some a) (xs ++ (a ∷ [])) ys
                                  (active - 1) g'
                                  (map_walk-next e.sockets rounds t w.forms w.distinct enough xs ys
                                    a g.split)
                                  (omega arith) (ground arith)))
                      ])))
          | inr n ↦
              rw (Returns, next, n)
                (subst
                  (λ v.
                    Returns (Served t k v) (dispatch outside rounds fuel world evl (some a) active))
                  (sym (served_head evl a ys world false n))
                  (dispatch-Served fuel world evl (some a) (xs ++ (a ∷ [])) ys active
                    (pass_quiet evl xs ys a active g n)
                    (map_walk-next evl.sockets rounds t g.watches.forms g.watches.distinct enough xs
                      ys a g.split)
                    (omega arith) some_left))
        ]
