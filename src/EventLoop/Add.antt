-- ===== src/EventLoop/Add.antt =====
-- evl_select_add_socket() of src/evl/src.linux/event_loop_select.c.
use Prim.Native.Nat.{max}
use tcp_striper.Base.{
  ℕ, suc, ◌+◌, ◌≤◌, ◌≡◌, ◌≢◌, refl, sym, ap, ◌∙◌, Bool, true, false, not, Option, none, some,
  is_some, ◌==◌, leb, ltb, lt→ltb, ◌<◌, if◌then◌else◌, if_true, if_false, arith,
}
use tcp_striper.Run.{Run, ok, aborted, ◌>>◌, assert, assert_holds, Returns, Returns-value}
use tcp_striper.Socket.{SkEvents}
use tcp_striper.Map.{MapHead, Compared, below, same, above, map_add}
use tcp_striper.Map.Find.{Tree, leaf, node, size, Forms, lookup}
use tcp_striper.Map.Link.{Apart}
use tcp_striper.Map.Add.{insert, map_add-insert}
use tcp_striper.Map.Insert.{insert-Distinct}
use tcp_striper.EventLoop.{
  EvlSelect, SelectSk, sk_order, select_sk_comp, alloc_select_sk, fd_put, fd_setsize, fd_set_if,
  watch, evl_select_add_socket,
}
use tcp_striper.EventLoop.Find.{find_sk, find_sk-insert, find_sk-in, lookup-find_sk}
use tcp_striper.EventLoop.Order.{IsOrdered-cong}
use tcp_striper.EventLoop.Removal.{insert-IsOrdered}
use tcp_striper.EventLoop.Watches.{wants, above_all, number, events_of, asked, Watches, Asks}

-- The tree is not changed by what is outside of it.
find_sk-cong :
    (k k' : ℕ → ℕ) (fresh n : ℕ) (t : Tree)
    → ((a : ℕ) → a ≢ fresh → k' a ≡ k a)
    → Apart fresh t
    → find_sk k' n t ≡ find_sk k n t
find_sk-cong k k' fresh n leaf same_k h = refl
find_sk-cong k k' fresh n (node l a r) same_k h =
    let here = same_k a (λ e. h.0 (sym e)) in
    let left = find_sk-cong k k' fresh n l same_k h.1 in
    let right = find_sk-cong k k' fresh n r same_k h.2 in
    λ i. elim (sk_order n (here i)) [ same ↦ some a | below ↦ left i | above ↦ right i ]

above_all-cong :
    (k k' : ℕ → ℕ) (fresh : ℕ) (t : Tree)
    → ((a : ℕ) → a ≢ fresh → k' a ≡ k a)
    → Apart fresh t
    → above_all k' t ≡ above_all k t
above_all-cong k k' fresh leaf same_k h = refl
above_all-cong k k' fresh (node l a r) same_k h =
    rw
      (
        same_k a (λ e. h.0 (sym e)),
        above_all-cong k k' fresh l same_k h.1,
        above_all-cong k k' fresh r same_k h.2,
      )
      refl

highest_of : (nfds sk : ℕ) → (if leb nfds sk then sk + 1 else nfds) ≡ max (suc sk) nfds
highest_of nfds sk = ground arith

above_all-insert :
    (k : ℕ → ℕ) (comp : ℕ → ℕ → Compared) (fresh : ℕ) (t : Tree)
    → lookup comp fresh t ≡ none
    → above_all k (insert comp fresh t) ≡ max (suc (k fresh)) (above_all k t)
above_all-insert k comp fresh leaf e = refl
above_all-insert k comp fresh (node l a r) e =
    by_order (above_all-insert k comp fresh l) (above_all-insert k comp fresh r) (comp fresh a) e
  where
    by_order :
        (lookup comp fresh l ≡ none
          → above_all k (insert comp fresh l) ≡ max (suc (k fresh)) (above_all k l))
        → (lookup comp fresh r ≡ none
            → above_all k (insert comp fresh r) ≡ max (suc (k fresh)) (above_all k r))
        → (o : Compared)
        → elim o [ same ↦ some a | below ↦ lookup comp fresh l | above ↦ lookup comp fresh r ]
          ≡ none
        → above_all k (elim o [
          | same ↦ node l a r
          | below ↦ node (insert comp fresh l) a r
          | above ↦ node l a (insert comp fresh r)
        ])
          ≡ max (suc (k fresh)) (above_all k (node l a r))
    by_order in_l in_r same e = cc
    by_order in_l in_r below e = ground (arith, in_l e)
    by_order in_l in_r above e = ground (arith, in_r e)

module _ {C : Type 0} (evl : EvlSelect C) (t : Tree) (fresh sk : ℕ) (events : SkEvents)
    (cb : C) where
  abbrev sks : ℕ → SelectSk C
  sks = alloc_select_sk evl.sks fresh sk events cb

  abbrev grown : Tree
  grown = insert (select_sk_comp sks) fresh t

  abbrev new_number : ℕ → ℕ
  new_number a = (sks a).sk

  number_kept : (a : ℕ) → a ≢ fresh → new_number a ≡ number evl a
  number_kept a n = ap (λ (s : SelectSk C). s.sk) (if_false (a == fresh) _ (ground arith))

  number_fresh : new_number fresh ≡ sk
  number_fresh = ap (λ (s : SelectSk C). s.sk) (if_true (fresh == fresh) _ (ground arith))

  -- What the search in map_add() finds.
  finds : Apart fresh t → lookup (select_sk_comp sks) fresh t ≡ find_sk (number evl) sk t
  finds h =
      lookup-find_sk new_number fresh t
      ∙ ap (λ n. find_sk new_number n t) number_fresh
      ∙ find_sk-cong (number evl) new_number fresh sk t number_kept h

  module _ (w : Watches evl t) (apart : Apart fresh t)
      (new : find_sk (number evl) sk t ≡ none) where
    find_grown :
        (n : ℕ)
        → find_sk new_number n grown ≡ (if n == sk then some fresh else find_sk (number evl) n t)
    find_grown n =
        find_sk-insert new_number fresh n t
          (sym (lookup-find_sk new_number fresh t) ∙ finds apart ∙ new)
        ∙ (λ i.
            if n == number_fresh i
            then some fresh
            else find_sk-cong (number evl) new_number fresh n t number_kept apart i)

    asked-grown :
        (n : ℕ)
        → events_of sks (find_sk new_number n grown)
          ≡ (if n == sk then some events else asked evl t n)
    asked-grown n =
        ap (events_of sks) (find_grown n) ∙ by_test (n == sk) (find_sk (number evl) n t) refl
      where
        by_test :
            (b : Bool) (x : Option ℕ)
            → find_sk (number evl) n t ≡ x
            → events_of sks (if b then some fresh else x)
              ≡ (if b then some events else events_of evl.sks x)
        by_test true x e =
            ap (λ (s : SelectSk C). some s.events) (if_true (fresh == fresh) _ (ground arith))
        by_test false none e = refl
        by_test false (some a) e =
            ap (λ (s : SelectSk C). some s.events)
              (if_false (a == fresh) _
                (ground (arith, find_sk-in (number evl) fresh n t a apart e)))

    set_in_step :
        (fds : ℕ → Bool) (f : SkEvents → Bool) (n : ℕ) (x : Option SkEvents)
        → asked evl t n ≡ x
        → (n ≡ sk → x ≡ none)
        → fds n ≡ wants f x
        → fd_set_if (f events) sk fds n ≡ wants f (if n == sk then some events else x)
    set_in_step fds f n none e at h = ground arith
    set_in_step fds f n (some old) e at h = ground (arith, at)

    error_in_step :
        (fds : ℕ → Bool) (n : ℕ) (x : Option SkEvents)
        → fds n ≡ is_some x
        → fd_put true sk fds n ≡ is_some (if n == sk then some events else x)
    error_in_step fds n none h = ground arith
    error_in_step fds n (some old) h = ground arith

    above_grown : above_all new_number grown ≡ max (suc sk) (above_all (number evl) t)
    above_grown =
        above_all-insert new_number (select_sk_comp sks) fresh t (finds apart ∙ new)
        ∙ ap (λ n. max (suc n) (above_all new_number t)) number_fresh
        ∙ ap (max (suc sk)) (above_all-cong (number evl) new_number fresh t number_kept apart)

    free : (n : ℕ) → n ≡ sk → asked evl t n ≡ none
    free n e = rw e (ap (events_of evl.sks) new)

    abbrev Added : EvlSelect C → Type 0
    Added evl' =
        Watches evl' grown × Asks evl t sk (some events) evl' grown × (evl'.map_touched ≡ true)

    watched :
        (sockets : MapHead)
        → Forms sockets sockets.root none grown
        → Added (watch (record evl { sockets = sockets; sks = sks }) sk events)
    watched sockets forms = (
      record {
        forms = forms;
        distinct = insert-Distinct (select_sk_comp sks) fresh t apart w.distinct;
        ordered =
            insert-IsOrdered new_number fresh t
              (IsOrdered-cong (number evl) new_number fresh t number_kept apart w.ordered);
        reads = λ n.
            set_in_step evl.fds_r (λ (e : SkEvents). e.readable) n (asked evl t n) refl (free n)
              (w.reads n)
            ∙ ap (wants (λ (e : SkEvents). e.readable)) (sym (asked-grown n));
        writes = λ n.
            set_in_step evl.fds_w (λ (e : SkEvents). e.writable) n (asked evl t n) refl (free n)
              (w.writes n)
            ∙ ap (wants (λ (e : SkEvents). e.writable)) (sym (asked-grown n));
        errors = λ n.
            error_in_step evl.fds_x n (asked evl t n) (w.errors n)
            ∙ ap (λ (x : Option SkEvents). is_some x) (sym (asked-grown n));
        highest = highest_of evl.nfds sk ∙ ap (max (suc sk)) w.highest ∙ sym above_grown;
      },
      asked-grown,
      refl,
    )

  -- What an addition comes to, by what is found for the descriptor.
  abbrev pub Adds : Option ℕ → Run (EvlSelect C) → Type 0
  Adds none r =
      Returns
        (λ (evl' : EvlSelect C).
          Watches evl' grown × Asks evl t sk (some events) evl' grown × (evl'.map_touched ≡ true))
        r
  Adds (some a) r = r ≡ aborted

  -- When the sets and nfds are in step with the sockets, a tree in order, the new record is at
  -- an address that is not in the tree, and its descriptor is below FD_SETSIZE, add_socket()
  -- with fuel for as many rounds as there are sockets fails its assertion if the descriptor is
  -- there already, and otherwise leaves the loop in step, with the new socket inserted in the
  -- tree, its events asked for on its descriptor, what is asked for on other descriptors
  -- unchanged, and map_touched set.
  pub evl_select_add_socket_law :
      (fuel : ℕ)
      → Watches evl t
      → size t ≤ fuel
      → Apart fresh t
      → sk < fd_setsize
      → Adds (find_sk (number evl) sk t) (evl_select_add_socket fuel evl (some fresh) sk events cb)
  unfolding evl_select_add_socket
  evl_select_add_socket_law fuel w enough apart small =
      let ((sockets, mi), made, (e, linked, kept)) =
        Returns-value _ (map_add (select_sk_comp sks) fuel evl.sockets fresh) (
          map_add-insert (select_sk_comp sks) fresh evl.sockets fuel t w.forms enough apart
            w.distinct) in
      rw made (by_found sockets mi (find_sk (number evl) sk t) refl (e ∙ finds apart) linked)
    where
      by_found :
          (sockets : MapHead) (mi x : Option ℕ)
          → find_sk (number evl) sk t ≡ x
          → mi ≡ x
          → (mi ≡ none → Forms sockets sockets.root none grown)
          → Adds x (
              assert (not (is_some mi))
              >> (assert (ltb sk fd_setsize)
                  >> ok (watch (record evl { sockets = sockets; sks = sks }) sk events)))
      by_found sockets none none found e linked =
          rw
            (assert_holds (ltb sk fd_setsize)
              (ok (watch (record evl { sockets = sockets; sks = sks }) sk events))
              (lt→ltb sk fd_setsize small))
            (watched w apart found sockets (linked refl))
      by_found sockets (some b) none found e linked = cc
      by_found sockets none (some a) found e linked = cc
      by_found sockets (some b) (some a) found e linked = refl
