-- ===== src/EventLoop/Del.antt =====
-- evl_select_del_socket() of src/evl/src.linux/event_loop_select.c.
use Prim.Native.Nat.{max}
use mathlib.Core.Path.{subst}
use tcp_striper.Base.{
  ℕ, suc, ◌<◌, ◌≡◌, refl, sym, ap, ◌∙◌, Bool, true, false, Option, none, some, is_some, ◌==◌,
  if◌then◌else◌, if_true, arith,
}
use tcp_striper.Run.{Run, ok, aborted, ◌>>=◌, Returns, Returns-bind}
use tcp_striper.Socket.{SkEvents}
use tcp_striper.Map.{MapHead, same_item, map_del}
use tcp_striper.Map.Find.{Tree, size, Forms, lookup}
use tcp_striper.Map.Zipper.{top}
use tcp_striper.Map.Delete.{delete, Deletes, map_del-delete}
use tcp_striper.EventLoop.{
  EvlSelect, select_sk_comp, fd_put, fd_clr_if, found, unwatch, new_nfds, evl_select_del_socket,
}
use tcp_striper.EventLoop.Find.{find_sk, find_sk-has, lookup-find_sk}
use tcp_striper.EventLoop.Order.{IsOrdered, IsOrdered-Distinct}
use tcp_striper.EventLoop.Removal.{
  SingleAt, find_sk-delete, delete-IsOrdered, above_all-delete, size-delete,
}
use tcp_striper.EventLoop.Watches.{wants, above_all, number, events_of, asked, Watches, Asks}
use tcp_striper.EventLoop.Mod.{find_select_sk-find_sk}
use tcp_striper.EventLoop.Highest.{new_nfds-above}

clear_in_step :
    (fds : ℕ → Bool) (b : Bool) (sk n : ℕ)
    → fds sk ≡ b
    → fd_clr_if b sk fds n ≡ (if n == sk then false else fds n)
clear_in_step fds true sk n e = refl
clear_in_step fds false sk n e = ground arith

module _ {C : Type 0} where
  module _ (evl : EvlSelect C) (t : Tree) (sk a : ℕ) (w : Watches evl t)
      (here : find_sk (number evl) sk t ≡ some a) (single : SingleAt (number evl) a top t) where
    abbrev rest : Tree
    rest = delete (select_sk_comp evl.sks) a t

    is_sk : number evl a ≡ sk
    is_sk = find_sk-has (number evl) sk t a here

    -- The search in map_del() ends at the item.
    looks_up : lookup (select_sk_comp evl.sks) a t ≡ some a
    looks_up = lookup-find_sk (number evl) a t ∙ ap (λ n. find_sk (number evl) n t) is_sk ∙ here

    find_rest :
        (n : ℕ) → find_sk (number evl) n rest ≡ (if n == sk then none else find_sk (number evl) n t)
    find_rest n =
        find_sk-delete (number evl) a n top t w.ordered single
        ∙ ap (λ m. if n == m then none else find_sk (number evl) n t) is_sk

    asked-rest : (n : ℕ) → asked evl rest n ≡ (if n == sk then none else asked evl t n)
    asked-rest n = ap (events_of evl.sks) (find_rest n) ∙ by_test (n == sk)
      where
        by_test :
            (b : Bool)
            → events_of evl.sks (if b then none else find_sk (number evl) n t)
              ≡ (if b then none else asked evl t n)
        by_test true = refl
        by_test false = refl

    cleared :
        (fds : ℕ → Bool) (f : SkEvents → Bool) (n : ℕ)
        → ((n : ℕ) → fds n ≡ wants f (asked evl t n))
        → fd_clr_if (f (evl.sks a).events) sk fds n ≡ wants f (asked evl rest n)
    cleared fds f n h =
        clear_in_step fds (f (evl.sks a).events) sk n
          (h sk ∙ ap (λ x. wants f (events_of evl.sks x)) here)
        ∙ by_test (n == sk)
        ∙ ap (wants f) (sym (asked-rest n))
      where
        by_test :
            (b : Bool) → (if b then false else fds n) ≡ wants f (if b then none else asked evl t n)
        by_test true = refl
        by_test false = h n

    error_cleared : (n : ℕ) → fd_put false sk evl.fds_x n ≡ is_some (asked evl rest n)
    error_cleared n =
        by_test (n == sk) ∙ ap (λ (x : Option SkEvents). is_some x) (sym (asked-rest n))
      where
        by_test :
            (b : Bool)
            → (if b then false else evl.fds_x n) ≡ is_some (if b then none else asked evl t n)
        by_test true = refl
        by_test false = w.errors n

    abbrev cut_from : MapHead → EvlSelect C
    cut_from sockets = record (unwatch evl sk (evl.sks a).events) { sockets = sockets }

    abbrev Removed : EvlSelect C → Type 0
    Removed evl' = Watches evl' rest × Asks evl t sk none evl' rest × (evl'.map_touched ≡ true)

    removed :
        (sockets : MapHead)
        → Forms sockets sockets.root none rest
        → Removed
            (record (cut_from sockets) { nfds = above_all (number evl) rest; map_touched = true })
    removed sockets f = (
      record {
        forms = f;
        distinct = IsOrdered-Distinct (number evl) rest ordered;
        ordered = ordered;
        reads = λ n. cleared evl.fds_r (λ (e : SkEvents). e.readable) n w.reads;
        writes = λ n. cleared evl.fds_w (λ (e : SkEvents). e.writable) n w.writes;
        errors = error_cleared;
        highest = refl;
      },
      asked-rest,
      refl,
    )
      where
        ordered : IsOrdered (number evl) rest
        ordered = delete-IsOrdered (number evl) a top t w.ordered single

    not_there : find_sk (number evl) sk rest ≡ none
    not_there = find_rest sk ∙ if_true (sk == sk) _ (ground arith)

    nfds_of :
        (fuel : ℕ) (sockets : MapHead)
        → Forms sockets sockets.root none rest
        → size t < fuel
        → new_nfds fuel (cut_from sockets) sk ≡ ok (above_all (number evl) rest)
    nfds_of fuel sockets f enough =
        let smaller = size-delete (number evl) a t in
        new_nfds-above fuel (cut_from sockets) rest sk f
          (delete-IsOrdered (number evl) a top t w.ordered single) (omega arith)
          (w.highest
            ∙ above_all-delete (number evl) a t a looks_up
            ∙ ap (λ n. max (suc n) (above_all (number evl) rest)) is_sk)
          not_there

    del_found :
        (fuel : ℕ)
        → size t < fuel
        → Returns Removed (
            map_del (select_sk_comp evl.sks) fuel evl.sockets a >>= λ q.
            new_nfds fuel (cut_from q.0) sk >>= λ nfds.
            ok (record (cut_from q.0) { nfds = nfds; map_touched = true }))
    del_found fuel enough =
        let itself : (a == a) ≡ true = ground arith in
        Returns-bind _ Removed (map_del (select_sk_comp evl.sks) fuel evl.sockets a) _
          (subst
            (λ b.
              Deletes (select_sk_comp evl.sks) a evl.sockets t b
                (map_del (select_sk_comp evl.sks) fuel evl.sockets a))
            (ap (λ x. same_item x a) looks_up ∙ itself)
            (map_del-delete (select_sk_comp evl.sks) a fuel evl.sockets t w.forms w.distinct
              (omega arith) single))
          (λ q h. rw (nfds_of fuel q.0 h.1 enough) (removed q.0 h.1))

  -- What a removal comes to, by what is found for the descriptor.
  abbrev pub Dels : EvlSelect C → Tree → ℕ → Option ℕ → Run (EvlSelect C) → Type 0
  Dels evl t sk none r = r ≡ aborted
  Dels evl t sk (some a) r =
      Returns
        (λ (evl' : EvlSelect C).
          let t' = delete (select_sk_comp evl.sks) a t in
          Watches evl' t' × Asks evl t sk none evl' t' × (evl'.map_touched ≡ true))
        r

  -- The item that is found has at most one child.
  abbrev pub HasOneChild : EvlSelect C → Tree → Option ℕ → Type 0
  HasOneChild evl t none = Unit {0}
  HasOneChild evl t (some a) = SingleAt (number evl) a top t

  -- When the sets and nfds are in step with the sockets, a tree in order, and the socket of
  -- the descriptor, if it is there, has at most one child in the tree, del_socket() with fuel
  -- for more rounds than there are sockets fails its assertion if the descriptor is not there,
  -- and otherwise leaves the loop in step, nfds included, with the socket taken out of the
  -- tree, nothing asked for on its descriptor, what is asked for on others unchanged, and
  -- map_touched set.
  pub evl_select_del_socket_law :
      (fuel sk : ℕ) (evl : EvlSelect C) (t : Tree)
      → Watches evl t
      → size t < fuel
      → HasOneChild evl t (find_sk (number evl) sk t)
      → Dels evl t sk (find_sk (number evl) sk t) (evl_select_del_socket fuel evl sk)
  unfolding evl_select_del_socket
  evl_select_del_socket_law fuel sk evl t w enough single =
      rw (find_select_sk-find_sk evl t fuel sk w (omega arith))
        (by_found (find_sk (number evl) sk t) refl single)
    where
      by_found :
          (x : Option ℕ)
          → find_sk (number evl) sk t ≡ x
          → HasOneChild evl t x
          → Dels evl t sk x (
              found x >>= λ a. map_del (select_sk_comp evl.sks) fuel evl.sockets a >>= λ q.
              let cut = record (unwatch evl sk (evl.sks a).events) { sockets = q.0 } in
              new_nfds fuel cut sk >>= λ nfds. ok (record cut { nfds = nfds; map_touched = true }))
      by_found none e single = refl
      by_found (some a) e single = del_found evl t sk a w e single fuel enough
