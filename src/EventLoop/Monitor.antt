-- ===== src/EventLoop/Monitor.antt =====
-- src/evl/src.linux/event_loop_select.c: evl_select_monitor(). select() is a parameter, and so is
-- what a callback does: it changes the world, and makes calls of the loop, which return nothing.
use tcp_striper.Base.{
  ℕ, zero, suc, ◌+◌, ◌-◌, ◌*◌, ◌/◌, ◌%◌, Bool, true, false, not, ◌||◌, Option, none, some, List, [],
  ◌∷◌, ◌==◌, ltb, if◌then◌else◌,
}
use tcp_striper.Run.{Run, ok, aborted, ◌>>=◌, ◌>>◌, assert}
use tcp_striper.Socket.{SkEvents}
use tcp_striper.Map.{map_walk}
use tcp_striper.EventLoop.{
  EvlSelect, FdSet, Left, running, disposed, set_sk, evl_select_add_socket, evl_select_mod_socket,
  evl_select_del_socket, evl_select_discard, dispose,
}

pub record Timeval : Type 0 where
  pub tv_sec : ℕ
  pub tv_usec : ℕ

pub record FdSets : Type 0 where
  pub r : FdSet
  pub w : FdSet
  pub x : FdSet

-- What select() returns: below 0, 0, or more, with the sets of what is ready.
pub data Selected : Type 0 where
  select_failed timed_out : Selected
  ready : FdSets → Selected

-- A call of the loop by a callback; for a new socket, with what heap_malloc() returns.
pub data Request (C : Type 0) : Type 0 where
  add_socket : Option ℕ → ℕ → SkEvents → C → Request C
  mod_socket : ℕ → SkEvents → Request C
  del_socket : ℕ → Request C
  discard : Request C

-- The world outside of the loop; `select nfds sets timeout`, with no sets for NULL.
pub record Outside (C W : Type 0) : Type 0 where
  pub select : ℕ → Option FdSets → Timeval → W → W × Selected
  pub call : C → SkEvents → W → W × List (Request C)

abbrev pub to_timeval : ℕ → Timeval
to_timeval timeout_ms = record { tv_sec = timeout_ms / 1000; tv_usec = 1000 * (timeout_ms % 1000) }

abbrev pub no_events : SkEvents
no_events = record { readable = false; writable = false; error = false }

abbrev pub any_event : SkEvents → Bool
any_event events = events.readable || (events.writable || events.error)

-- `have`, from what select() says is ready.
abbrev pub reported : FdSets → ℕ → SkEvents
reported sets sk = record { readable = sets.r sk; writable = sets.w sk; error = sets.x sk }

module _ {C : Type 0} where
  abbrev pub set_have : EvlSelect C → ℕ → SkEvents → EvlSelect C
  set_have evl a events = record evl {
    sks = set_sk evl.sks a (record (evl.sks a) { have = events });
  }

  -- The walk that takes over what select() says, and counts the active sockets.
  unfoldable pub gather : ℕ → ℕ → FdSets → EvlSelect C → Option ℕ → ℕ → Run (EvlSelect C × ℕ)
  gather rounds zero sets evl mi active = aborted
  gather rounds (suc fuel) sets evl mi active = do
    next ← map_walk rounds evl.sockets mi
    elim next [
      | none ↦ ok (evl, active)
      | some a ↦
          let events = reported sets (evl.sks a).sk in
          gather rounds fuel sets (set_have evl a events) (some a)
            (if any_event events then active + 1 else active)
    ]

  -- A callback's call of the loop, which is not used once it is gone.
  unfoldable pub perform : ℕ → Left C → Request C → Run (Left C)
  perform fuel (disposed freed) request = aborted
  perform fuel (running evl) (add_socket fresh sk events cb) = do
    evl' ← evl_select_add_socket fuel evl fresh sk events cb
    ok (running evl')
  perform fuel (running evl) (mod_socket sk events) = do
    evl' ← evl_select_mod_socket fuel evl sk events
    ok (running evl')
  perform fuel (running evl) (del_socket sk) = do
    evl' ← evl_select_del_socket fuel evl sk
    ok (running evl')
  perform fuel (running evl) discard = evl_select_discard fuel evl

  unfoldable pub perform_all : ℕ → Left C → List (Request C) → Run (Left C)
  unfolding perform
  perform_all fuel left [] = ok left
  perform_all fuel left (request ∷ requests) = do
    left' ← perform fuel left request
    perform_all fuel left' requests

  -- What monitor() makes of the loop after the callback.
  abbrev pub out_of_callback : Left C → Run (EvlSelect C)
  out_of_callback (running evl) = ok (record evl { in_callback = false })
  out_of_callback (disposed freed) = aborted

module _ {C W : Type 0} (outside : Outside C W) where
  -- `ssk->have = 0`, and the callback of the socket with what it had.
  unfoldable pub call_back : ℕ → W → EvlSelect C → ℕ → Run (W × EvlSelect C)
  unfolding perform_all
  call_back rounds world evl a = do
    let ssk = evl.sks a
    let called = outside.call ssk.cb ssk.have world
    left ←
        perform_all rounds (running (record (set_have evl a no_events) { in_callback = true }))
          (called.1)
    evl' ← out_of_callback left
    ok (called.0, evl')

  -- The walk that calls back, from `mi` on; `false` is the result -1.
  unfoldable pub dispatch : ℕ → ℕ → W → EvlSelect C → Option ℕ → ℕ → Run (W × Left C × Bool)
  unfolding call_back
  dispatch rounds zero world evl mi active = aborted
  dispatch rounds (suc fuel) world evl mi active = do
    next ← map_walk rounds evl.sockets mi
    elim next [
      | none ↦ ok (world, running evl, true)
      | some a ↦ elim (any_event (evl.sks a).have) [
        | false ↦ dispatch rounds fuel world evl (some a) active
        | true ↦ do
          (world', evl') ← call_back rounds world evl a
          elim (evl'.dead) [
            | true ↦ do left ← dispose rounds evl'; ok (world', left, false)
            | false ↦ elim (active - 1 == 0) [
              | true ↦ ok (world', running evl', true)
              | false ↦ elim (evl'.map_touched) [
                | true ↦
                    dispatch rounds fuel world' (record evl' { map_touched = false }) none
                      (active - 1)
                | false ↦ dispatch rounds fuel world' evl' (some a) (active - 1)
              ]
            ]
          ]
      ]
    ]

  -- What monitor() does with the answer of select().
  unfoldable pub on_selected : ℕ → ℕ → EvlSelect C → W × Selected → Run (W × Left C × Bool)
  unfolding gather dispatch
  on_selected rounds fuel evl (world, select_failed) = ok (world, running evl, false)
  on_selected rounds fuel evl (world, timed_out) = ok (world, running evl, true)
  on_selected rounds fuel evl (world, ready sets) = do
    (evl', active) ← gather rounds rounds sets evl none 0
    assert (ltb 0 active)
    dispatch rounds fuel world (record evl' { map_touched = false }) none active

  -- The sets that select() is given.
  abbrev pub selecting : EvlSelect C → Option FdSets
  selecting evl =
      if evl.nfds == 0 then none else some (record { r = evl.fds_r; w = evl.fds_w; x = evl.fds_x })

  -- The test that follows the assertion is not reached.
  unfoldable pub evl_select_monitor : ℕ → ℕ → EvlSelect C → ℕ → W → Run (W × Left C × Bool)
  unfolding on_selected
  evl_select_monitor rounds fuel evl timeout_ms world = do
    assert (not evl.in_callback)
    on_selected rounds fuel evl
        (outside.select evl.nfds (selecting evl) (to_timeval timeout_ms) world)
