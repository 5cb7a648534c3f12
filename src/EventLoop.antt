-- ===== src/EventLoop.antt =====
-- src/evl/src.linux/event_loop_select.c: the event loop over select(). A socket's record is in the
-- memory at an address, by which the map holds it. Loops run on fuel, and fail if there is none
-- left when they are to go on.
pub mod Monitor
pub mod Find
pub mod Watches
pub mod Order
pub mod Removal
pub mod Add
pub mod Like
pub mod Gather
pub mod Steady
pub mod Dispatch
pub mod Serve
pub mod Effects
pub mod View
pub mod Perform
pub mod Requests
pub mod Calls
pub mod Called
pub mod Walking
pub mod Restart
pub mod Settle
pub mod Dispose
mod Tests
mod RestartTests
pub mod Mod
pub mod Highest
pub mod Del
use tcp_striper.Base.{
  ℕ, zero, suc, ◌+◌, ◌-◌, Bool, true, false, not, ◌&&◌, Option, none, some, List, [], ◌∷◌, ◌==◌,
  leb, ltb, if◌then◌else◌, is_some,
}
use tcp_striper.Run.{Run, ok, aborted, ◌>>=◌, ◌>>◌, assert}
use tcp_striper.Socket.{SkEvents}
use tcp_striper.Map.{
  MapItem, MapHead, Compared, below, same, above, map_init, map_find, map_add, map_del, map_walk,
}

-- A callback, with its context, is a value of any type.
pub record SelectSk (C : Type 0) : Type 0 where
  pub sk : ℕ
  pub events : SkEvents
  pub cb : C
  pub have : SkEvents

abbrev pub FdSet : Type 0
FdSet = ℕ → Bool

-- The loop, and the memory that its sockets are in.
pub record EvlSelect (C : Type 0) : Type 0 where
  pub nfds : ℕ
  pub fds_r : FdSet
  pub fds_w : FdSet
  pub fds_x : FdSet
  pub sockets : MapHead
  pub sks : ℕ → SelectSk C
  pub map_touched : Bool
  pub in_callback : Bool
  pub dead : Bool

-- FD_SET() and FD_CLR()
abbrev pub fd_put : Bool → ℕ → FdSet → FdSet
fd_put b sk fds = λ n. if n == sk then b else fds n

-- `if (b) FD_SET(sk, fds)`, `if (b) FD_CLR(sk, fds)`
abbrev pub fd_set_if : Bool → ℕ → FdSet → FdSet
fd_set_if b sk fds = if b then fd_put true sk fds else fds

-- FD_SETSIZE: the bits of a set are those of the numbers below it.
abbrev pub fd_setsize : ℕ
fd_setsize = 1024

abbrev pub fd_clr_if : Bool → ℕ → FdSet → FdSet
fd_clr_if b sk fds = if b then fd_put false sk fds else fds

-- The sign of the difference of two descriptors.
abbrev pub sk_order : ℕ → ℕ → Compared
sk_order a b = if ltb a b then below else (if a == b then same else above)

-- One set, when the mask of events changes.
abbrev pub fd_update : (was is : Bool) → ℕ → FdSet → FdSet
fd_update was is sk fds = fd_clr_if (not is && was) sk (fd_set_if (is && not was) sk fds)

-- `assert(ssk)`
abbrev pub found : Option ℕ → Run ℕ
found none = aborted
found (some a) = ok a

-- What is left of the loop: it is still there, or it is gone and its sockets are freed.
pub data Left (C : Type 0) : Type 0 where
  running : EvlSelect C → Left C
  disposed : List ℕ → Left C

module _ {C : Type 0} where
  abbrev pub select_sk_comp : (ℕ → SelectSk C) → ℕ → ℕ → Compared
  select_sk_comp sks a b = sk_order (sks a).sk (sks b).sk

  abbrev pub set_sk : (ℕ → SelectSk C) → ℕ → SelectSk C → ℕ → SelectSk C
  set_sk sks a ssk = λ b. if b == a then ssk else sks b

  -- Of the key, which is on the stack, only its `sk` is there to be read.
  unfoldable pub find_select_sk : ℕ → EvlSelect C → ℕ → Run (Option ℕ)
  find_select_sk fuel evl sk = map_find (λ key a. sk_order key (evl.sks a).sk) fuel evl.sockets sk

  -- heap_malloc() does not clear the memory: `have` is what it was.
  abbrev pub alloc_select_sk : (ℕ → SelectSk C) → ℕ → ℕ → SkEvents → C → ℕ → SelectSk C
  alloc_select_sk sks fresh sk events cb =
      set_sk sks fresh (record (sks fresh) { sk = sk; events = events; cb = cb })

  -- The sets and nfds with a new socket.
  abbrev pub watch : EvlSelect C → ℕ → SkEvents → EvlSelect C
  watch evl sk events = record evl {
    fds_r = fd_set_if events.readable sk evl.fds_r;
    fds_w = fd_set_if events.writable sk evl.fds_w;
    fds_x = fd_put true sk evl.fds_x;
    nfds = if leb evl.nfds sk then sk + 1 else evl.nfds;
    map_touched = true;
  }

  -- `fresh` is what heap_malloc() returns. FD_SET() of a number that is no bit of the set is not
  -- defined, and is `aborted` here.
  unfoldable pub evl_select_add_socket :
      ℕ → EvlSelect C → Option ℕ → ℕ → SkEvents → C → Run (EvlSelect C)
  evl_select_add_socket fuel evl none sk events cb = ok evl
  evl_select_add_socket fuel evl (some fresh) sk events cb = do
    let sks = alloc_select_sk evl.sks fresh sk events cb
    (sockets, mi) ← map_add (select_sk_comp sks) fuel evl.sockets fresh
    assert (not (is_some mi))
    assert (ltb sk fd_setsize)
    ok (watch (record evl { sockets = sockets; sks = sks }) sk events)

  abbrev pub remask : EvlSelect C → ℕ → ℕ → SkEvents → EvlSelect C
  remask evl a sk events =
      let ssk = evl.sks a in
      record evl {
        fds_r = fd_update ssk.events.readable events.readable sk evl.fds_r;
        fds_w = fd_update ssk.events.writable events.writable sk evl.fds_w;
        sks = set_sk evl.sks a (record ssk { events = events });
      }

  unfoldable pub evl_select_mod_socket : ℕ → EvlSelect C → ℕ → SkEvents → Run (EvlSelect C)
  unfolding find_select_sk
  evl_select_mod_socket fuel evl sk events = do
    mi ← find_select_sk fuel evl sk
    a ← found mi
    ok (remask evl a sk events)

  -- The walk that looks for the largest descriptor; `below_max` is max_sk + 1.
  unfoldable pub max_loop : ℕ → ℕ → EvlSelect C → ℕ → Option ℕ → ℕ → Run ℕ
  max_loop rounds zero evl sk mi below_max = aborted
  max_loop rounds (suc fuel) evl sk mi below_max = do
    next ← map_walk rounds evl.sockets mi
    elim next [
      | none ↦ ok below_max
      | some a ↦ elim (ltb ((evl.sks a).sk + 1) below_max) [
        | true ↦ max_loop rounds fuel evl sk (some a) below_max
        | false ↦ elim ((evl.sks a).sk + 1 == sk) [
          | true ↦ ok ((evl.sks a).sk + 1)
          | false ↦ max_loop rounds fuel evl sk (some a) ((evl.sks a).sk + 1)
        ]
      ]
    ]

  unfoldable pub new_nfds : ℕ → EvlSelect C → ℕ → Run ℕ
  unfolding max_loop
  new_nfds fuel evl sk = elim (evl.nfds == sk + 1) [
    | true ↦ max_loop fuel fuel evl sk none 0
    | false ↦ ok evl.nfds
  ]

  -- The sets without a socket.
  abbrev pub unwatch : EvlSelect C → ℕ → SkEvents → EvlSelect C
  unwatch evl sk events = record evl {
    fds_r = fd_clr_if events.readable sk evl.fds_r;
    fds_w = fd_clr_if events.writable sk evl.fds_w;
    fds_x = fd_put false sk evl.fds_x;
  }

  unfoldable pub evl_select_del_socket : ℕ → EvlSelect C → ℕ → Run (EvlSelect C)
  unfolding find_select_sk new_nfds
  evl_select_del_socket fuel evl sk = do
    mi ← find_select_sk fuel evl sk
    a ← found mi
    (sockets, item) ← map_del (select_sk_comp evl.sks) fuel evl.sockets a
    let cut = record (unwatch evl sk (evl.sks a).events) { sockets = sockets }
    nfds ← new_nfds fuel cut sk
    ok (record cut { nfds = nfds; map_touched = true })

  -- The sockets that are freed, in order.
  unfoldable pub evl_select_dispose : ℕ → ℕ → EvlSelect C → Run (List ℕ)
  evl_select_dispose rounds zero evl = aborted
  evl_select_dispose rounds (suc fuel) evl = do
    next ← map_walk rounds evl.sockets none
    elim next [
      | none ↦ ok []
      | some a ↦ do
        (sockets, item) ← map_del (select_sk_comp evl.sks) rounds evl.sockets a
        rest ← evl_select_dispose rounds fuel (record evl { sockets = sockets })
        ok (a ∷ rest)
    ]

  unfoldable pub dispose : ℕ → EvlSelect C → Run (Left C)
  unfolding evl_select_dispose
  dispose fuel evl = do freed ← evl_select_dispose fuel fuel evl; ok (disposed freed)

  unfoldable pub evl_select_discard : ℕ → EvlSelect C → Run (Left C)
  unfolding dispose
  evl_select_discard fuel evl = do
    assert (not evl.dead)
    let marked = record evl { dead = true }
    if evl.in_callback then ok (running marked) else dispose fuel marked

  -- `in_callback` and `dead` are what they were in the memory, and so are the items.
  abbrev pub new_event_loop_select :
      (items : ℕ → MapItem) (sks : ℕ → SelectSk C) (in_callback dead : Bool) → EvlSelect C
  new_event_loop_select items sks in_callback dead = record {
    nfds = 0;
    fds_r = λ n. false;
    fds_w = λ n. false;
    fds_x = λ n. false;
    sockets = map_init items;
    sks = sks;
    map_touched = false;
    in_callback = in_callback;
    dead = dead;
  }
