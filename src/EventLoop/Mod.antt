-- ===== src/EventLoop/Mod.antt =====
-- evl_select_mod_socket() of src/evl/src.linux/event_loop_select.c.
use mathlib.Core.Path.{fun_ext, subst}
use tcp_striper.Base.{
  ℕ, ◌≤◌, ◌≡◌, refl, sym, ap, ◌∙◌, Bool, true, false, Option, none, some, is_some, ◌==◌,
  if◌then◌else◌, if_true, if_false, Bool-cases, inl, inr, arith, ==_iff,
}
use tcp_striper.Run.{Run, ok, aborted, Returns, ◌>>=◌}
use tcp_striper.Socket.{SkEvents}
use tcp_striper.Map.Find.{Tree, size, map_find-lookup}
use tcp_striper.EventLoop.{
  EvlSelect, SelectSk, sk_order, fd_update, remask, found, find_select_sk, evl_select_mod_socket,
}
use tcp_striper.EventLoop.Find.{find_sk, find_sk-has}
use tcp_striper.EventLoop.Order.{IsOrdered}
use tcp_striper.EventLoop.Watches.{wants, above_all, number, events_of, asked, Watches, Asks}

update_in_step :
    (fds : ℕ → Bool) (was is : Bool) (sk n : ℕ)
    → fds sk ≡ was
    → fd_update was is sk fds n ≡ (if n == sk then is else fds n)
update_in_step fds true true sk n e = ground arith
update_in_step fds true false sk n e = ground arith
update_in_step fds false true sk n e = ground arith
update_in_step fds false false sk n e = ground arith

module _ {C : Type 0} (evl : EvlSelect C) (t : Tree) where
  -- A search of the map finds what is found in the tree.
  pub find_select_sk-find_sk :
      (fuel n : ℕ)
      → Watches evl t
      → size t ≤ fuel
      → find_select_sk fuel evl n ≡ ok (find_sk (number evl) n t)
  unfolding find_select_sk
  find_select_sk-find_sk fuel n w enough =
      map_find-lookup (λ key a. sk_order key (evl.sks a).sk) evl.sockets n fuel t w.forms enough

  module _ (sk a : ℕ) (events : SkEvents) (w : Watches evl t)
      (here : find_sk (number evl) sk t ≡ some a) where
    number_kept : number (remask evl a sk events) ≡ number evl
    number_kept = fun_ext λ b. elim (Bool-cases (b == a)) [
      | inl y ↦
          ap (λ (s : SelectSk C). s.sk) (if_true (b == a) _ y)
          ∙ ap (number evl) (sym ((==_iff b a).0 y))
      | inr n ↦ ap (λ (s : SelectSk C). s.sk) (if_false (b == a) _ n)
    ]

    at_sk : (n : ℕ) → (n == sk) ≡ true → find_sk (number evl) n t ≡ some a
    at_sk n y = ap (λ m. find_sk (number evl) m t) ((==_iff n sk).0 y) ∙ here

    elsewhere : (n b : ℕ) → (n == sk) ≡ false → find_sk (number evl) n t ≡ some b → (b == a) ≡ false
    elsewhere n b y e = elim (Bool-cases (b == a)) [
      | inl z ↦
          let n_sk : n ≡ sk =
            sym (find_sk-has (number evl) n t b e)
            ∙ ap (number evl) ((==_iff b a).0 z)
            ∙ find_sk-has (number evl) sk t a here in
          ground arith
      | inr z ↦ z
    ]

    asked_anew : Asks evl t sk (some events) (remask evl a sk events) t
    asked_anew n =
        ap (λ k. events_of (remask evl a sk events).sks (find_sk k n t)) number_kept
        ∙ by_test (n == sk) refl (find_sk (number evl) n t) refl
      where
        by_test :
            (b : Bool)
            → (n == sk) ≡ b
            → (x : Option ℕ) → find_sk (number evl) n t ≡ x
            → events_of (remask evl a sk events).sks x
              ≡ (if b then some events else events_of evl.sks x)
        by_test true y none e = let h = at_sk n y in cc
        by_test true y (some b) e =
            let h = at_sk n y in
            let b_a : b ≡ a = cc in
            ap (λ (s : SelectSk C). some s.events) (if_true (b == a) _ ((==_iff b a).1 b_a))
        by_test false y none e = refl
        by_test false y (some b) e =
            ap (λ (s : SelectSk C). some s.events) (if_false (b == a) _ (elsewhere n b y e))

    was : (f : SkEvents → Bool) → wants f (asked evl t sk) ≡ f (evl.sks a).events
    was f = ap (λ x. wants f (events_of evl.sks x)) here

    set_in_step :
        (fds : ℕ → Bool) (f : SkEvents → Bool) (n : ℕ)
        → ((n : ℕ) → fds n ≡ wants f (asked evl t n))
        → fd_update (f (evl.sks a).events) (f events) sk fds n
          ≡ wants f (asked (remask evl a sk events) t n)
    set_in_step fds f n h =
        update_in_step fds (f (evl.sks a).events) (f events) sk n (h sk ∙ was f)
        ∙ by_test (n == sk)
        ∙ ap (wants f) (sym (asked_anew n))
      where
        by_test :
            (b : Bool)
            → (if b then f events else fds n) ≡ wants f (if b then some events else asked evl t n)
        by_test true = refl
        by_test false = h n

    still :
        (n : ℕ) (b : Bool)
        → (n == sk) ≡ b
        → is_some (asked evl t n) ≡ is_some (if b then some events else asked evl t n)
    still n true y = ap (λ x. is_some (events_of evl.sks x)) (at_sk n y)
    still n false y = refl

    masked : Watches (remask evl a sk events) t
    masked = record {
      forms = w.forms;
      distinct = w.distinct;
      ordered = subst (λ k. IsOrdered k t) (sym number_kept) w.ordered;
      reads = λ n. set_in_step evl.fds_r (λ (e : SkEvents). e.readable) n w.reads;
      writes = λ n. set_in_step evl.fds_w (λ (e : SkEvents). e.writable) n w.writes;
      errors = λ n.
          w.errors n
          ∙ still n (n == sk) refl
          ∙ ap (λ (x : Option SkEvents). is_some x) (sym (asked_anew n));
      highest = w.highest ∙ ap (λ k. above_all k t) (sym number_kept);
    }

  -- What a change of the mask comes to, by what is found for the descriptor.
  abbrev pub Mods : ℕ → SkEvents → Option ℕ → Run (EvlSelect C) → Type 0
  Mods sk events none r = r ≡ aborted
  Mods sk events (some a) r =
      Returns
        (λ (evl' : EvlSelect C).
          Watches evl' t × Asks evl t sk (some events) evl' t × (evl' ≡ remask evl a sk events))
        r

  -- When the sets and nfds are in step with the sockets, a tree in order, mod_socket() with
  -- fuel for as many rounds as there are sockets fails its assertion if the descriptor is not
  -- there, and otherwise leaves the loop in step with the same tree, the new events asked for
  -- on the descriptor and what is asked for on others unchanged; nothing changes but the two
  -- sets and the mask of that socket.
  pub evl_select_mod_socket_law :
      (fuel sk : ℕ) (events : SkEvents)
      → Watches evl t
      → size t ≤ fuel
      → Mods sk events (find_sk (number evl) sk t) (evl_select_mod_socket fuel evl sk events)
  unfolding evl_select_mod_socket
  evl_select_mod_socket_law fuel sk events w enough =
      rw (find_select_sk-find_sk fuel sk w enough) (by_found (find_sk (number evl) sk t) refl)
    where
      by_found :
          (x : Option ℕ)
          → find_sk (number evl) sk t ≡ x
          → Mods sk events x (found x >>= λ a. ok (remask evl a sk events))
      by_found none e = refl
      by_found (some a) e = (masked sk a events w e, asked_anew sk a events w e, refl)
