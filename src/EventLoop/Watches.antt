-- ===== src/EventLoop/Watches.antt =====
-- What the loop of src/evl/src.linux/event_loop_select.c watches for, and its state in step with it.
use Prim.Native.Nat.{max}
use tcp_striper.Base.{ℕ, suc, ◌≡◌, Bool, false, Option, none, some, is_some, ◌==◌, if◌then◌else◌}
use tcp_striper.Socket.{SkEvents}
use tcp_striper.Map.Find.{Tree, leaf, node, Forms}
use tcp_striper.Map.Link.{Distinct}
use tcp_striper.EventLoop.{EvlSelect, SelectSk}
use tcp_striper.EventLoop.Find.{find_sk}
use tcp_striper.EventLoop.Order.{IsOrdered}

abbrev pub wants : (SkEvents → Bool) → Option SkEvents → Bool
wants f none = false
wants f (some events) = f events

-- More than any descriptor in the tree.
abbrev pub above_all : (ℕ → ℕ) → Tree → ℕ
above_all k leaf = 0
above_all k (node l a r) = max (suc (k a)) (max (above_all k l) (above_all k r))

module _ {C : Type 0} where
  abbrev pub number : EvlSelect C → ℕ → ℕ
  number evl a = (evl.sks a).sk

  abbrev pub events_of : (ℕ → SelectSk C) → Option ℕ → Option SkEvents
  events_of sks none = none
  events_of sks (some a) = some (sks a).events

  -- The events that the loop is asked to watch for on a descriptor, `none` if it is not there.
  abbrev pub asked : EvlSelect C → Tree → ℕ → Option SkEvents
  asked evl t n = events_of evl.sks (find_sk (number evl) n t)

  -- The map holds a tree of sockets, and the sets and nfds are those of what is asked for.
  pub record Watches (evl : EvlSelect C) (t : Tree) : Type 0 where
    pub forms : Forms evl.sockets (evl.sockets).root none t
    pub distinct : Distinct t
    pub ordered : IsOrdered (number evl) t
    pub reads : (n : ℕ) → evl.fds_r n ≡ wants (λ (e : SkEvents). e.readable) (asked evl t n)
    pub writes : (n : ℕ) → evl.fds_w n ≡ wants (λ (e : SkEvents). e.writable) (asked evl t n)
    pub errors : (n : ℕ) → evl.fds_x n ≡ is_some (asked evl t n)
    pub highest : evl.nfds ≡ above_all (number evl) t

  -- What is asked for on one descriptor changes.
  abbrev pub Asks : EvlSelect C → Tree → ℕ → Option SkEvents → EvlSelect C → Tree → Type 0
  Asks evl t sk events evl' t' =
      (n : ℕ) → asked evl' t' n ≡ (if n == sk then events else asked evl t n)
