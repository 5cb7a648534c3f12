-- ===== src/EventLoop/View.antt =====
-- What the caller of the event loop can tell of it, and the calls that keep to the rules
-- (src/evl/inc/libp/event_loop.h).
use tcp_striper.Base.{
  ℕ, ◌<◌, ◌≡◌, Bool, true, false, Option, none, some, is_some, List, [], ◌∷◌, ◌==◌, if◌then◌else◌,
}
use tcp_striper.Socket.{SkEvents}
use tcp_striper.Map.Find.{Tree}
use tcp_striper.Map.Link.{Apart}
use tcp_striper.Map.Zipper.{top}
use tcp_striper.Map.Add.{insert}
use tcp_striper.Map.Delete.{delete}
use tcp_striper.EventLoop.{fd_setsize, EvlSelect, Left, running, disposed, sk_order}
use tcp_striper.EventLoop.Find.{find_sk}
use tcp_striper.EventLoop.Removal.{SingleAt}
use tcp_striper.EventLoop.Watches.{number, asked, Watches}
use tcp_striper.EventLoop.Monitor.{Request, add_socket, mod_socket, del_socket, discard}
use tcp_striper.EventLoop.Effects.{Notices, renumbered}

-- What a caller can tell of the loop: the sockets in their tree, with their descriptors, the
-- events it is asked to watch for on each descriptor, and whether it is discarded.
pub record View : Type 0 where
  pub tree : Tree
  pub number : ℕ → ℕ
  pub wanted : ℕ → Option SkEvents
  pub dead : Bool

abbrev pub insert_by : (ℕ → ℕ) → ℕ → Tree → Tree
insert_by k = insert (λ a b. sk_order (k a) (k b))

abbrev pub without : (ℕ → ℕ) → Tree → Option ℕ → Tree
without k t none = t
without k t (some a) = delete (λ x y. sk_order (k x) (k y)) a t

abbrev ask : ℕ → Option SkEvents → (ℕ → Option SkEvents) → ℕ → Option SkEvents
ask sk events wanted = λ n. if n == sk then events else wanted n

-- The descriptor is there, and its socket has at most one child.
abbrev pub Single : (ℕ → ℕ) → Tree → Option ℕ → Type 0
Single k t none = ⊥
Single k t (some a) = SingleAt k a top t

module _ {C : Type 0} where
  -- A call that keeps to the rules: a socket that is added is new, in new memory, with a
  -- descriptor that is a bit of the sets; one that is
  -- changed or deleted is there, with at most one child if it is deleted; and the loop is
  -- discarded once.
  abbrev pub Can : View → Request C → Type 0
  Can v (add_socket none sk events cb) = Unit {0}
  Can v (add_socket (some fresh) sk events cb) =
      Apart fresh v.tree × (find_sk v.number sk v.tree ≡ none) × (sk < fd_setsize)
  Can v (mod_socket sk events) = is_some (find_sk v.number sk v.tree) ≡ true
  Can v (del_socket sk) = Single v.number v.tree (find_sk v.number sk v.tree)
  Can v discard = v.dead ≡ false

  abbrev pub after : View → Request C → View
  after v (add_socket none sk events cb) = v
  after v (add_socket (some fresh) sk events cb) =
      let k = renumbered v.number fresh sk in
      record v {
        tree = insert_by k fresh v.tree;
        number = k;
        wanted = ask sk (some events) v.wanted;
      }
  after v (mod_socket sk events) = record v { wanted = ask sk (some events) v.wanted }
  after v (del_socket sk) = record v {
    tree = without v.number v.tree (find_sk v.number sk v.tree);
    wanted = ask sk none v.wanted;
  }
  after v discard = record v { dead = true }

  abbrev pub CanAll : View → List (Request C) → Type 0
  CanAll v [] = Unit {0}
  CanAll v (request ∷ requests) = Can v request × CanAll (after v request) requests

  abbrev pub after_all : View → List (Request C) → View
  after_all v [] = v
  after_all v (request ∷ requests) = after_all (after v request) requests

  abbrev pub view : EvlSelect C → Tree → View
  view evl t = record { tree = t; number = number evl; wanted = asked evl t; dead = evl.dead }

  -- The loop is still there and still in the callback; it is in step, looks as `v` says, and a
  -- change of its map is noted.
  abbrev pub Looks : EvlSelect C → View → Left C → Type 0
  Looks evl v (running evl') =
      Watches evl' v.tree
      × (view evl' v.tree ≡ v)
      × Notices evl evl'
      × (evl'.in_callback ≡ evl.in_callback)
  Looks evl v (disposed freed) = ⊥
