-- ===== src/EventLoop/Effects.antt =====
-- What a call of the event loop leaves alone (src/evl/src.linux/event_loop_select.c): the flags,
-- and the numbers of the sockets.
use mathlib.Core.Path.{fun_ext}
use tcp_striper.Base.{
  ℕ, ◌≡◌, refl, ◌∙◌, ◌⊎◌, inl, inr, Bool, true, false, not, some, ◌==◌, if◌then◌else◌, Bool-cases,
  is_some, ltb,
}
use tcp_striper.Run.{Run, ok, aborted, ◌>>=◌, ◌>>◌, assert, Returns}
use tcp_striper.Socket.{SkEvents}
use tcp_striper.Map.{map_add, map_del}
use tcp_striper.EventLoop.{
  fd_setsize, EvlSelect, SelectSk, select_sk_comp, alloc_select_sk, found, find_select_sk, new_nfds,
  unwatch, evl_select_add_socket, evl_select_mod_socket, evl_select_del_socket,
}
use tcp_striper.EventLoop.Watches.{number}
use tcp_striper.EventLoop.Like.{field_kept}

-- If the code runs to its end, what it returns satisfies `P`.
abbrev IfReturns {ℓ} : {A : Type ℓ} → (A → Type 0) → Run A → Type 0
IfReturns P (ok a) = P a
IfReturns P aborted = Unit {0}

IfReturns-bind {ℓ κ} :
    {A : Type ℓ} {B : Type κ} (Q : B → Type 0) (m : Run A) (f : A → Run B)
    → ((a : A) → IfReturns Q (f a))
    → IfReturns Q (m >>= f)
IfReturns-bind Q (ok a) f h = h a
IfReturns-bind Q aborted f h = tt

IfReturns-assert {ℓ} :
    {A : Type ℓ} (P : A → Type 0) (b : Bool) (m : Run A)
    → IfReturns P m
    → IfReturns P (assert b >> m)
IfReturns-assert P true m h = h
IfReturns-assert P false m h = tt

-- The two together: it does run to its end.
pub Returns-both {ℓ} :
    {A : Type ℓ} (P Q : A → Type 0) (m : Run A)
    → Returns P m
    → IfReturns Q m
    → Returns (λ a. P a × Q a) m
Returns-both P Q (ok a) h k = (h, k)
Returns-both P Q aborted h k = elim h [ ]

abbrev pub renumbered : (ℕ → ℕ) → ℕ → ℕ → ℕ → ℕ
renumbered k fresh sk a = if a == fresh then sk else k a

module _ {C : Type 0} where
  -- The loop has noted a change of its map, or there was none, and all sockets have the events
  -- to be told that they had.
  abbrev pub Notices : EvlSelect C → EvlSelect C → Type 0
  Notices evl evl' =
      (evl'.map_touched ≡ true)
      ⊎ ((evl'.sockets ≡ evl.sockets)
          × (evl'.map_touched ≡ evl.map_touched)
          × ((a : ℕ) → (evl'.sks a).have ≡ (evl.sks a).have))

  pub Notices-trans : (e f g : EvlSelect C) → Notices e f → Notices f g → Notices e g
  Notices-trans e f g h (inl y) = inl y
  Notices-trans e f g (inl x) (inr (s, t, h)) = inl (t ∙ x)
  Notices-trans e f g (inr (s', t', h')) (inr (s, t, h)) = inr (s ∙ s', t ∙ t', λ a. h a ∙ h' a)

  -- The sockets have the numbers `k` now, and the flags are kept.
  pub record Turns (evl : EvlSelect C) (k : ℕ → ℕ) (evl' : EvlSelect C) : Type 0 where
    pub notices : Notices evl evl'
    pub in_callback : evl'.in_callback ≡ evl.in_callback
    pub dead : evl'.dead ≡ evl.dead
    pub numbers : number evl' ≡ k

  pub number-alloc_select_sk :
      (sks : ℕ → SelectSk C) (fresh sk : ℕ) (events : SkEvents) (cb : C)
      → ((λ (a : ℕ). (alloc_select_sk sks fresh sk events cb a).sk)
          ≡ renumbered (λ a. (sks a).sk) fresh sk)
  number-alloc_select_sk sks fresh sk events cb =
      fun_ext (λ a. elim (Bool-cases (a == fresh)) [ inl y ↦ rw y refl | inr n ↦ rw n refl ])

  pub add-Turns :
      (fuel : ℕ) (evl : EvlSelect C) (fresh sk : ℕ) (events : SkEvents) (cb : C)
      → IfReturns
          (Turns evl (renumbered (number evl) fresh sk))
          (evl_select_add_socket fuel evl (some fresh) sk events cb)
  unfolding evl_select_add_socket
  add-Turns fuel evl fresh sk events cb =
      let P = Turns evl (renumbered (number evl) fresh sk) in
      let sks = alloc_select_sk evl.sks fresh sk events cb in
      IfReturns-bind P (map_add (select_sk_comp sks) fuel evl.sockets fresh) _ (λ q.
        IfReturns-assert P (not (is_some q.1)) _ (
          IfReturns-assert P (ltb sk fd_setsize) _ (record {
            notices = inl refl;
            in_callback = refl;
            dead = refl;
            numbers = number-alloc_select_sk evl.sks fresh sk events cb;
          })))

  pub mod-Turns :
      (fuel : ℕ) (evl : EvlSelect C) (sk : ℕ) (events : SkEvents)
      → IfReturns (Turns evl (number evl)) (evl_select_mod_socket fuel evl sk events)
  unfolding evl_select_mod_socket
  mod-Turns fuel evl sk events =
      let P = Turns evl (number evl) in
      IfReturns-bind P (find_select_sk fuel evl sk) _ (λ mi. IfReturns-bind P (found mi) _ (λ a.
        record {
          notices = inr (
            refl,
            refl,
            field_kept (λ (s : SelectSk C). s.have) evl.sks a
                (record (evl.sks a) { events = events }) refl,
          );
          in_callback = refl;
          dead = refl;
          numbers = fun_ext (
              field_kept (λ (s : SelectSk C). s.sk) evl.sks a
                (record (evl.sks a) { events = events }) refl);
        }))

  pub del-Turns :
      (fuel : ℕ) (evl : EvlSelect C) (sk : ℕ)
      → IfReturns (Turns evl (number evl)) (evl_select_del_socket fuel evl sk)
  unfolding evl_select_del_socket
  del-Turns fuel evl sk =
      let P = Turns evl (number evl) in
      IfReturns-bind P (find_select_sk fuel evl sk) _ (λ mi. IfReturns-bind P (found mi) _ (λ a.
        IfReturns-bind P (map_del (select_sk_comp evl.sks) fuel evl.sockets a) _ (λ q.
          IfReturns-bind P
            (new_nfds fuel (record (unwatch evl sk (evl.sks a).events) { sockets = q.0 }) sk) _
            (λ nfds. record {
              notices = inl refl;
              in_callback = refl;
              dead = refl;
              numbers = refl;
            }))))
