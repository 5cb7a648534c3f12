-- ===== src/EventLoop/Like.antt =====
-- Changes of the loop (src/evl/src.linux/event_loop_select.c) that leave its map alone.
use mathlib.Core.Path.{fun_ext, subst}
use tcp_striper.Base.{
  ℕ, ◌≡◌, refl, sym, ap, ◌∙◌, Bool, Option, none, some, is_some, ◌==◌, if_true, if_false,
  Bool-cases, inl, inr, ==_iff,
}
use tcp_striper.Socket.{SkEvents}
use tcp_striper.Map.Find.{Tree}
use tcp_striper.EventLoop.{EvlSelect, SelectSk, set_sk}
use tcp_striper.EventLoop.Find.{find_sk}
use tcp_striper.EventLoop.Order.{IsOrdered}
use tcp_striper.EventLoop.Watches.{wants, above_all, number, events_of, asked, Watches}

module _ {C : Type 0} where
  -- A field of a socket's record that is kept when one of them is set.
  pub field_kept {ℓ} :
      {X : Type ℓ} (f : SelectSk C → X) (sks : ℕ → SelectSk C) (a : ℕ) (ssk : SelectSk C)
      → f ssk ≡ f (sks a)
      → (b : ℕ) → f (set_sk sks a ssk b) ≡ f (sks b)
  field_kept f sks a ssk e b = elim (Bool-cases (b == a)) [
    | inl y ↦ ap f (if_true (b == a) _ y) ∙ e ∙ ap (λ c. f (sks c)) (sym ((==_iff b a).0 y))
    | inr n ↦ ap f (if_false (b == a) _ n)
  ]

  -- The two loops have the same map, and its sockets the same callbacks and `have`.
  pub record Like (evl evl' : EvlSelect C) : Type 0 where
    pub sockets : evl'.sockets ≡ evl.sockets
    pub sk : (b : ℕ) → (evl'.sks b).sk ≡ (evl.sks b).sk
    pub cb : (b : ℕ) → (evl'.sks b).cb ≡ (evl.sks b).cb
    pub have : (b : ℕ) → (evl'.sks b).have ≡ (evl.sks b).have
    pub map_touched : evl'.map_touched ≡ evl.map_touched
    pub dead : evl'.dead ≡ evl.dead

  pub Like-trans : (e f g : EvlSelect C) → Like e f → Like f g → Like e g
  Like-trans e f g h k = record {
    sockets = k.sockets ∙ h.sockets;
    sk = λ b. k.sk b ∙ h.sk b;
    cb = λ b. k.cb b ∙ h.cb b;
    have = λ b. k.have b ∙ h.have b;
    map_touched = k.map_touched ∙ h.map_touched;
    dead = k.dead ∙ h.dead;
  }

  -- The sets, nfds and the map are the same, and so are the descriptors and the masks.
  pub record Masks (evl evl' : EvlSelect C) : Type 0 where
    pub sets :
        (evl'.fds_r ≡ evl.fds_r)
        × (evl'.fds_w ≡ evl.fds_w)
        × (evl'.fds_x ≡ evl.fds_x)
        × (evl'.nfds ≡ evl.nfds)
        × (evl'.sockets ≡ evl.sockets)
    pub sk : (b : ℕ) → (evl'.sks b).sk ≡ (evl.sks b).sk
    pub events : (b : ℕ) → (evl'.sks b).events ≡ (evl.sks b).events

  pub asked_same :
      (evl evl' : EvlSelect C) (t : Tree)
      → Masks evl evl'
      → (n : ℕ) → asked evl' t n ≡ asked evl t n
  asked_same evl evl' t m n =
      ap (λ k. events_of evl'.sks (find_sk k n t)) (fun_ext m.sk)
      ∙ by_found (find_sk (number evl) n t)
    where
      by_found : (x : Option ℕ) → events_of evl'.sks x ≡ events_of evl.sks x
      by_found none = refl
      by_found (some b) = ap some (m.events b)

  pub Masks-Watches :
      (evl evl' : EvlSelect C) (t : Tree) → Masks evl evl' → Watches evl t → Watches evl' t
  Masks-Watches evl evl' t m w = record {
    forms = rw (m.sets.4) w.forms;
    distinct = w.distinct;
    ordered = subst (λ k. IsOrdered k t) (sym (fun_ext m.sk)) w.ordered;
    reads = λ n.
        ap (λ (f : ℕ → Bool). f n) m.sets.0
        ∙ w.reads n
        ∙ ap (wants (λ (e : SkEvents). e.readable)) (sym (asked_same evl evl' t m n));
    writes = λ n.
        ap (λ (f : ℕ → Bool). f n) m.sets.1
        ∙ w.writes n
        ∙ ap (wants (λ (e : SkEvents). e.writable)) (sym (asked_same evl evl' t m n));
    errors = λ n.
        ap (λ (f : ℕ → Bool). f n) m.sets.2
        ∙ w.errors n
        ∙ ap (λ (x : Option SkEvents). is_some x) (sym (asked_same evl evl' t m n));
    highest = m.sets.3 ∙ w.highest ∙ ap (λ k. above_all k t) (sym (fun_ext m.sk));
  }
