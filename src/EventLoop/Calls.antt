-- ===== src/EventLoop/Calls.antt =====
-- The callbacks that evl_select_monitor() makes (src/evl/src.linux/event_loop_select.c).
use mathlib.Core.Path.{subst}
use tcp_striper.Base.{
  ℕ, ◌≡◌, ◌≢◌, refl, sym, ap, ◌∙◌, inl, inr, Bool, true, false, List, [], ◌∷◌, All, ◌==◌,
  if◌then◌else◌, Bool-cases, ==_iff, arith,
}
use tcp_striper.Socket.{SkEvents}
use tcp_striper.EventLoop.{EvlSelect}
use tcp_striper.EventLoop.Gather.{haves, set_have-same, set_have-other}
use tcp_striper.EventLoop.Dispatch.{Quiet}
use tcp_striper.EventLoop.Monitor.{Outside, any_event, no_events, set_have}

-- The world after the callbacks, each told of its events.
abbrev pub run_calls : {C W : Type 0} → Outside C W → List (C × SkEvents) → W → W
run_calls outside [] world = world
run_calls outside ((cb, events) ∷ calls) world =
    run_calls outside calls (outside.call cb events world).0

-- The first callback is that of the first of the sockets that has events; without one there is none.
abbrev pub LedBy : {C : Type 0} → (ℕ → C) → (ℕ → SkEvents) → List ℕ → List (C × SkEvents) → Type 0
LedBy cb have [] calls = calls ≡ []
LedBy cb have (a ∷ ys) calls =
    if any_event (have a)
    then ((rest : List _) × (calls ≡ (cb a, have a) ∷ rest))
    else LedBy cb have ys calls

pub LedBy-called :
    {C : Type 0} (cb : ℕ → C) (have : ℕ → SkEvents) (a : ℕ) (ys : List ℕ)
    (calls : List (C × SkEvents))
    → any_event (have a) ≡ true
    → LedBy cb have (a ∷ ys) ((cb a, have a) ∷ calls)
LedBy-called cb have a ys calls y = rw y (calls, refl)

pub LedBy-quiet :
    {C : Type 0} (cb : ℕ → C) (have : ℕ → SkEvents) (a : ℕ) (ys : List ℕ)
    (calls : List (C × SkEvents))
    → any_event (have a) ≡ false
    → LedBy cb have ys calls
    → LedBy cb have (a ∷ ys) calls
LedBy-quiet cb have a ys calls n led = rw n led

pub LedBy-cong :
    {C : Type 0} (cb : ℕ → C) (f g : ℕ → SkEvents) (ys : List ℕ) (calls : List (C × SkEvents))
    → All (λ a. f a ≡ g a) ys
    → LedBy cb f ys calls
    → LedBy cb g ys calls
LedBy-cong cb f g [] calls h led = led
LedBy-cong cb f g (a ∷ ys) calls h led =
    by_event (any_event (f a)) refl (LedBy-cong cb f g ys calls h.1) led
  where
    by_event :
        (b : Bool)
        → any_event (f a) ≡ b
        → (LedBy cb f ys calls → LedBy cb g ys calls)
        → (if b then ((rest : List _) × (calls ≡ (cb a, f a) ∷ rest)) else LedBy cb f ys calls)
        → LedBy cb g (a ∷ ys) calls
    by_event true e rest (others, same) =
        let e' : any_event (g a) ≡ true = ap any_event (sym h.0) ∙ e in
        rw e' (others, same ∙ ap (λ v. (cb a, v) ∷ others) h.0)
    by_event false e rest led =
        let e' : any_event (g a) ≡ false = ap any_event (sym h.0) ∙ e in rw e' (rest led)

-- Clearing the events of one socket makes no other have some.
pub quiet_kept :
    {C : Type 0} (evl evl' : EvlSelect C) (a : ℕ)
    → ((b : ℕ) → haves evl' b ≡ haves (set_have evl a no_events) b)
    → (b : ℕ) → Quiet (haves evl) b
    → Quiet (haves evl') b
quiet_kept evl evl' a h b q = elim (Bool-cases (b == a)) [
  | inl y ↦
      subst (λ c. Quiet (haves evl') c) (sym ((==_iff b a).0 y))
        (ap any_event (h a ∙ set_have-same evl a no_events))
  | inr n ↦
      let differ : b ≢ a = λ x. ground arith in
      ap any_event (h b ∙ set_have-other evl a no_events b differ) ∙ q
]
