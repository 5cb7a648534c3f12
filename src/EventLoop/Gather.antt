-- ===== src/EventLoop/Gather.antt =====
-- The walk of evl_select_monitor() (src/evl/src.linux/event_loop_select.c) that takes over what
-- select() says.
use tcp_striper.Base.{
  ℕ, zero, suc, ◌+◌, ◌≤◌, ◌<◌, ◌≡◌, ◌≢◌, refl, sym, ap, ◌∙◌, Bool, Option, none, some, List, [],
  ◌∷◌, ◌++◌, append_assoc, All, length, ◌==◌, if◌then◌else◌, if_true, if_false, arith,
}
use mathlib.Core.Path.{fun_ext}
use tcp_striper.Run.{ok, Returns, Returns-imp}
use tcp_striper.Socket.{SkEvents}
use tcp_striper.Map.{map_walk}
use tcp_striper.Map.Find.{Tree, size}
use tcp_striper.Map.Walk.{first, map_walk-first, map_walk-next, length-inorder}
use tcp_striper.Map.Zipper.{inorder}
use tcp_striper.Map.Order.{others_after}
use tcp_striper.EventLoop.{EvlSelect, SelectSk}
use tcp_striper.EventLoop.Watches.{number, Watches}
use tcp_striper.EventLoop.Like.{field_kept, Masks, Masks-Watches}
use tcp_striper.EventLoop.Monitor.{FdSets, any_event, reported, set_have, gather}

-- The number of sockets that have events.
abbrev pub pending : (ℕ → SkEvents) → List ℕ → ℕ
pending have [] = 0
pending have (a ∷ ys) = (if any_event (have a) then 1 else 0) + pending have ys

pub pending-cong :
    (f g : ℕ → SkEvents) (ys : List ℕ) → All (λ b. f b ≡ g b) ys → pending f ys ≡ pending g ys
pending-cong f g [] h = refl
pending-cong f g (a ∷ ys) h = rw (h.0, pending-cong f g ys h.1) refl

-- The events of a descriptor that stand for its bits in the sets.
abbrev pub told_by : FdSets → ℕ → SkEvents
told_by sets n = record { readable = sets.r n; writable = sets.w n; error = sets.x n }

-- What select() says of an item with the descriptor `k a`.
abbrev pub news : FdSets → (ℕ → ℕ) → ℕ → SkEvents
news sets k a = told_by sets (k a)

count_step :
    (b : Bool) (active p : ℕ)
    → (if b then active + 1 else active) + p ≡ active + ((if b then 1 else 0) + p)
count_step b active p = ground arith

module _ {C : Type 0} where
  abbrev pub haves : EvlSelect C → ℕ → SkEvents
  haves evl a = (evl.sks a).have

  -- All but `have` is as it was.
  pub record Told (evl evl' : EvlSelect C) : Type 0 where
    pub masks : Masks evl evl'
    pub cb : (b : ℕ) → (evl'.sks b).cb ≡ (evl.sks b).cb
    pub dead : evl'.dead ≡ evl.dead

  Told-refl : (e : EvlSelect C) → Told e e
  Told-refl e = record {
    masks = record { sets = (refl, refl, refl, refl, refl); sk = λ b. refl; events = λ b. refl };
    cb = λ b. refl;
    dead = refl;
  }

  Told-trans : (e f g : EvlSelect C) → Told e f → Told f g → Told e g
  Told-trans e f g h k = record {
    masks = record {
      sets = (
        k.masks.sets.0 ∙ h.masks.sets.0,
        k.masks.sets.1 ∙ h.masks.sets.1,
        k.masks.sets.2 ∙ h.masks.sets.2,
        k.masks.sets.3 ∙ h.masks.sets.3,
        k.masks.sets.4 ∙ h.masks.sets.4,
      );
      sk = λ b. k.masks.sk b ∙ h.masks.sk b;
      events = λ b. k.masks.events b ∙ h.masks.events b;
    };
    cb = λ b. k.cb b ∙ h.cb b;
    dead = k.dead ∙ h.dead;
  }

  pub set_have-Told :
      (evl : EvlSelect C) (a : ℕ) (events : SkEvents) → Told evl (set_have evl a events)
  set_have-Told evl a events =
      let ssk = record (evl.sks a) { have = events } in
      record {
        masks = record {
          sets = (refl, refl, refl, refl, refl);
          sk = field_kept (λ (s : SelectSk C). s.sk) evl.sks a ssk refl;
          events = field_kept (λ (s : SelectSk C). s.events) evl.sks a ssk refl;
        };
        cb = field_kept (λ (s : SelectSk C). s.cb) evl.sks a ssk refl;
        dead = refl;
      }

  pub set_have-same :
      (evl : EvlSelect C) (a : ℕ) (events : SkEvents) → haves (set_have evl a events) a ≡ events
  set_have-same evl a events = ap (λ (s : SelectSk C). s.have) (if_true (a == a) _ (ground arith))

  pub set_have-other :
      (evl : EvlSelect C) (a : ℕ) (events : SkEvents) (b : ℕ)
      → b ≢ a
      → haves (set_have evl a events) b ≡ haves evl b
  set_have-other evl a events b n =
      ap (λ (s : SelectSk C). s.have) (if_false (b == a) _ (ground arith))

  module _ (rounds : ℕ) (sets : FdSets) (t : Tree) (k : ℕ → ℕ) (enough : size t ≤ rounds) where
    abbrev GatheredFrom : EvlSelect C → ℕ → List ℕ → EvlSelect C × ℕ → Type 0
    GatheredFrom evl active ys q =
        Told evl q.0
        × (q.1 ≡ active + pending (news sets k) ys)
        × All (λ a. haves q.0 a ≡ news sets k a) ys
        × ((b : ℕ) → All (λ c. c ≢ b) ys → haves q.0 b ≡ haves evl b)

    gather_rest :
        (fuel : ℕ) (evl : EvlSelect C) (mi : Option ℕ) (xs ys : List ℕ) (active : ℕ)
        → Watches evl t
        → number evl ≡ k
        → inorder t ≡ xs ++ ys
        → map_walk rounds evl.sockets mi ≡ ok (first ys)
        → length ys < fuel
        → Returns (GatheredFrom evl active ys) (gather rounds fuel sets evl mi active)
    unfolding gather
    gather_rest zero evl mi xs ys active w num e next more = absurd (omega arith)
    gather_rest (suc fuel) evl mi xs [] active w num e next more =
        rw (Returns, next) (Told-refl evl, omega arith, tt, λ b h. refl)
    gather_rest (suc fuel) evl mi xs (a ∷ ys) active w num e next more =
        let events = reported sets (evl.sks a).sk in
        let evl1 = set_have evl a events in
        let told = set_have-Told evl a events in
        rw (Returns, next)
          (Returns-imp _ _
            (gather rounds fuel sets evl1 (some a)
              (if any_event events then active + 1 else active))
            (gather_rest fuel evl1 (some a) (xs ++ (a ∷ [])) ys
              (if any_event events then active + 1 else active)
              (Masks-Watches evl evl1 t told.masks w) (fun_ext told.masks.sk ∙ num)
              (e ∙ sym (append_assoc xs (a ∷ []) ys))
              (map_walk-next evl.sockets rounds t w.forms w.distinct enough xs ys a e)
              (omega arith))
            (λ q h. (
              Told-trans evl evl1 q.0 told h.0,
              h.1
                  ∙ count_step (any_event events) active (pending (news sets k) ys)
                  ∙ ap
                      (λ (f : ℕ → ℕ).
                        active
                        + ((if any_event (reported sets (f a)) then 1 else 0)
                            + pending (news sets k) ys))
                      num,
              (
                h.3 a (others_after t xs ys a w.distinct e)
                    ∙ set_have-same evl a events
                    ∙ ap (λ (f : ℕ → ℕ). reported sets (f a)) num,
                h.2,
              ),
              λ b n. h.3 b n.1 ∙ set_have-other evl a events b (λ x. n.0 (sym x)),
            )))

    pub gather_law :
        (fuel : ℕ) (evl : EvlSelect C)
        → Watches evl t
        → number evl ≡ k
        → size t < fuel
        → Returns
            (λ (q : EvlSelect C × ℕ).
              Told evl q.0
              × (q.1 ≡ pending (news sets k) (inorder t))
              × All (λ a. haves q.0 a ≡ news sets k a) (inorder t))
            (gather rounds fuel sets evl none 0)
    gather_law fuel evl w num more =
        Returns-imp _ _ (gather rounds fuel sets evl none 0)
          (gather_rest fuel evl none [] (inorder t) 0 w num refl
            (map_walk-first evl.sockets rounds t w.forms enough) (omega (arith, length-inorder t)))
          (λ q h. (h.0, h.1 ∙ (omega arith), h.2))
