-- ===== src/EventLoop/Tests.antt =====
-- The event loop (src/evl/src.linux/event_loop_select.c) with sockets 3 and 5, and a world that
-- counts the callbacks.
use tcp_striper.Base.{
  ℕ, ◌+◌, ◌≡◌, refl, ap, ◌∙◌, Bool, true, false, ◌||◌, Option, none, some, List, [], ◌∷◌, ◌==◌,
  if◌then◌else◌, arith, Bool-cases, inl, inr,
}
use tcp_striper.Run.{Run, ok, aborted, ◌>>=◌, Returns}
use tcp_striper.Socket.{SkEvents}
use tcp_striper.Map.{
  unlinked, map_add, map_del, map_find, map_walk, find_loop, delete_at, unlink, climb, leftmost,
  last_left, last_right,
}
use tcp_striper.Map.Find.{Tree, leaf, node}
use tcp_striper.EventLoop.{
  SelectSk, EvlSelect, Left, running, disposed, fd_put, new_event_loop_select, find_select_sk,
  evl_select_add_socket, evl_select_mod_socket, evl_select_del_socket, evl_select_discard, dispose,
  evl_select_dispose, new_nfds, max_loop,
}
use tcp_striper.EventLoop.Watches.{Watches}
use tcp_striper.EventLoop.Add.{Adds, evl_select_add_socket_law}
use tcp_striper.EventLoop.Mod.{Mods, evl_select_mod_socket_law}
use tcp_striper.EventLoop.Del.{Dels, evl_select_del_socket_law}
use tcp_striper.EventLoop.Serve.{Answers, Monitored, evl_select_monitor_law}
use tcp_striper.EventLoop.View.{after_all, view, Looks}
use tcp_striper.EventLoop.Requests.{perform_all_law}
use tcp_striper.EventLoop.Monitor.{
  Request, add_socket, FdSets, Selected, timed_out, ready, mod_socket, del_socket, discard, Outside,
  no_events, evl_select_monitor, on_selected, gather, dispatch, call_back, perform, perform_all,
}

abbrev reading : SkEvents
reading = record { readable = true; writable = false; error = false }

abbrev writing : SkEvents
writing = record { readable = false; writable = true; error = false }

abbrev memory : ℕ → SelectSk ℕ
memory a = record { sk = 0; events = no_events; cb = 0; have = no_events }

abbrev empty_loop : EvlSelect ℕ
empty_loop = new_event_loop_select (λ a. unlinked) memory false false

empty_loop-Watches : Watches empty_loop leaf
empty_loop-Watches = record {
  forms = refl;
  distinct = tt;
  ordered = tt;
  reads = λ n. refl;
  writes = λ n. refl;
  errors = λ n. refl;
  highest = refl;
}

-- Socket 3, in item 1, is read from.
abbrev pub one_socket : EvlSelect ℕ
one_socket = record empty_loop {
  nfds = 4;
  fds_r = fd_put true 3 (λ n. false);
  fds_x = fd_put true 3 (λ n. false);
  sockets = record { root = some 1; items = λ a. unlinked };
  sks = λ a. record { sk = 3; events = reading; cb = 7; have = no_events };
}

abbrev pub one_tree : Tree
one_tree = node leaf 1 leaf

pub one_socket-Watches : Watches one_socket one_tree
one_socket-Watches = record {
  forms = (refl, refl, refl, refl);
  distinct = ((tt, tt), (tt, tt), (tt, tt));
  ordered = (tt, tt, tt, tt);
  reads = λ n. ground arith;
  writes = λ n. ground arith;
  errors = λ n. ground arith;
  highest = refl;
}

-- select() says that socket 3 can be read from, if it is asked about it.
abbrev pub says : Option FdSets → ℕ → ℕ × Selected
says none world = (world, timed_out)
says (some given) world =
    if given.r 3
    then (world, ready (record { r = λ n. n == 3; w = λ n. false; x = λ n. false }))
    else (world, timed_out)

-- A callback counts, and asks for socket 3 to be written to as well.
abbrev outside : Outside ℕ ℕ
outside = record {
  select = λ nfds given tv world. says given world;
  call = λ cb events world.
      (world + cb, mod_socket 3 (record { readable = true; writable = true; error = false }) ∷ []);
}

pub says-Answers : (given : Option FdSets) (world : ℕ) → Answers given (says given world).1
says-Answers none world = tt
says-Answers (some given) world = elim (Bool-cases (given.r 3)) [
  | inl y ↦ rw y (
    (λ n. (λ e. let e' : n ≡ 3 = ground (arith, e) in ap given.r e' ∙ y, λ e. cc, λ e. cc)),
    (3, refl),
  )
  | inr n ↦ rw n tt
]

evl_select_add_socket_law_example :
    Adds empty_loop leaf 1 3 reading 7 none
      (evl_select_add_socket 0 empty_loop (some 1) 3 reading 7)
evl_select_add_socket_law_example =
    evl_select_add_socket_law empty_loop leaf 1 3 reading 7 0 empty_loop-Watches (omega arith) tt
      (omega arith)

evl_select_mod_socket_law_example :
    Mods one_socket one_tree 3 writing (some 1) (evl_select_mod_socket 1 one_socket 3 writing)
evl_select_mod_socket_law_example =
    evl_select_mod_socket_law one_socket one_tree 1 3 writing one_socket-Watches (omega arith)

evl_select_del_socket_law_example :
    Dels one_socket one_tree 3 (some 1) (evl_select_del_socket 2 one_socket 3)
evl_select_del_socket_law_example =
    evl_select_del_socket_law 2 3 one_socket one_tree one_socket-Watches (omega arith) (inl refl)

evl_select_monitor_law_example :
    Returns
      (Monitored outside one_socket one_tree 2 (
        says
          (some (record { r = one_socket.fds_r; w = one_socket.fds_w; x = one_socket.fds_x }))
          0))
      (evl_select_monitor outside 2 2 one_socket 100 0)
evl_select_monitor_law_example =
    evl_select_monitor_law outside one_socket one_tree 2 (λ cb events world. (refl, tt))
      one_socket-Watches refl (omega arith) 2 100 0 refl
      (λ nfds given tv world. says-Answers given world) (omega arith)

-- Within a callback: socket 5 is added in item 2, is to be written to, socket 3 is taken out, and
-- the loop is discarded.
abbrev in_use : EvlSelect ℕ
in_use = record one_socket { in_callback = true }

in_use-Watches : Watches in_use one_tree
in_use-Watches = record {
  forms = (refl, refl, refl, refl);
  distinct = ((tt, tt), (tt, tt), (tt, tt));
  ordered = (tt, tt, tt, tt);
  reads = λ n. ground arith;
  writes = λ n. ground arith;
  errors = λ n. ground arith;
  highest = refl;
}

abbrev requests : List (Request ℕ)
requests = add_socket (some 2) 5 reading 9 ∷ mod_socket 5 writing ∷ del_socket 3 ∷ discard ∷ []

perform_all_law_example :
    Returns
      (Looks in_use (after_all (view in_use one_tree) requests))
      (perform_all 6 (running in_use) requests)
perform_all_law_example =
    perform_all_law requests 6 in_use one_tree in_use-Watches refl
      ((((λ e. ground (arith, e)), tt, tt), refl, (omega arith)), (refl, (inl refl, (refl, tt))))
      (omega arith)

-- The world and the result of a run of monitor(), and whether the loop is still there.
abbrev seen : Run (ℕ × Left ℕ × Bool) → Option (ℕ × Bool × Bool)
seen (ok (world, running evl, r)) = some (world, true, r)
seen (ok (world, disposed freed, r)) = some (world, false, r)
seen aborted = none

-- A callback of socket 5 counts ten, one of socket 3 one, and takes socket 5 out of the loop.
abbrev one_deletes : Outside ℕ ℕ
one_deletes = record {
  select = λ nfds given tv world.
      (world, ready (record { r = λ n. n == 3 || n == 5; w = λ n. false; x = λ n. false }));
  call = λ cb events world. (world + cb, if cb == 1 then del_socket 5 ∷ [] else []);
}

abbrev two_sockets : Run (EvlSelect ℕ)
two_sockets = do
  evl ← evl_select_add_socket 3 empty_loop (some 1) 3 reading 1
  evl_select_add_socket 3 evl (some 2) 5 reading 10

-- So socket 5 is not called, although select() has reported it.
deleted_is_not_called :
    seen (two_sockets >>= λ evl. evl_select_monitor one_deletes 4 8 evl 100 0)
    ≡ some (1, true, true)
unfolding evl_select_add_socket map_add find_loop evl_select_monitor on_selected gather dispatch
    call_back perform_all perform evl_select_del_socket map_del delete_at unlink find_select_sk
    map_find new_nfds max_loop map_walk climb leftmost last_left last_right
deleted_is_not_called = refl

-- A callback that discards the loop: the loop is disposed of once the callback has returned.
abbrev one_discards : Outside ℕ ℕ
one_discards = record one_deletes { call = λ cb events world. (world + cb, discard ∷ []) }

discards_in_callback :
    seen (two_sockets >>= λ evl. evl_select_monitor one_discards 4 8 evl 100 0)
    ≡ some (1, false, false)
unfolding evl_select_add_socket map_add find_loop evl_select_monitor on_selected gather dispatch
    call_back perform_all perform evl_select_discard dispose evl_select_dispose map_del delete_at
    unlink find_select_sk map_find map_walk climb leftmost last_left last_right
discards_in_callback = refl
