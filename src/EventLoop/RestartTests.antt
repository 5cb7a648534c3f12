-- ===== src/EventLoop/RestartTests.antt =====
-- The event loop (src/evl/src.linux/event_loop_select.c) with socket 3, whose callback takes it out
-- of the loop when it is called first.
use tcp_striper.Base.{
  ℕ, zero, suc, ◌+◌, ◌<◌, ◌≡◌, refl, false, List, [], ◌∷◌, length, inl, some, arith,
}
use tcp_striper.Run.{ok, Returns}
use tcp_striper.Map.Find.{leaf, size}
use tcp_striper.EventLoop.Tests.{one_socket, one_tree, one_socket-Watches, says, says-Answers}
use tcp_striper.EventLoop.Monitor.{Request, del_socket, Outside, evl_select_monitor}
use tcp_striper.EventLoop.{disposed, evl_select_discard}
use tcp_striper.EventLoop.Dispose.{evl_select_discard_law}
use tcp_striper.EventLoop.View.{View, CanAll, after_all}
use tcp_striper.EventLoop.Walking.{Rules}
use tcp_striper.EventLoop.Settle.{Outcome, evl_select_monitor-Outcome}

-- The world counts the calls.
abbrev leaves : ℕ → ℕ × List (Request ℕ)
leaves zero = (1, del_socket 3 ∷ [])
leaves (suc n) = (suc n, [])

abbrev one_leaves : Outside ℕ ℕ
one_leaves = record {
  select = λ nfds given tv world. (world, (says given world).1);
  call = λ cb events world. leaves world;
}

-- Before the call the socket is there, and after it nothing is.
abbrev Inv : ℕ → View → Type 0
Inv zero v = (v.tree ≡ one_tree) × (v.number ≡ λ a. 3) × (v.dead ≡ false)
Inv (suc n) v = (v.tree ≡ leaf) × (v.dead ≡ false)

Inv-fits : (world : ℕ) (v : View) → Inv world v → size v.tree < 3
Inv-fits zero v h = rw h.0 (omega arith)
Inv-fits (suc n) v h = rw h.0 (omega arith)

leaves-Inv :
    (world : ℕ) (v : View)
    → Inv world v
    → CanAll v (leaves world).1
      × (size v.tree + length (leaves world).1 < 3)
      × Inv (leaves world).0 (after_all v (leaves world).1)
leaves-Inv zero v (tree, number, alive) =
    rw (tree, number) ((inl refl, tt), omega arith, (refl, alive))
leaves-Inv (suc n) v (tree, alive) = rw tree (tt, omega arith, (refl, alive))

one_leaves-Rules : Rules one_leaves 3 Inv
one_leaves-Rules = record {
  fits = Inv-fits;
  keeps = λ cb events. leaves-Inv;
  selects = λ nfds given tv world v h. h;
}

evl_select_monitor-Outcome_example :
    Returns
      (Outcome one_leaves 3 Inv one_leaves-Rules one_socket one_tree one_socket-Watches refl (
        0,
        (says
            (some (record { r = one_socket.fds_r; w = one_socket.fds_w; x = one_socket.fds_x }))
            0).1,
      ))
      (evl_select_monitor one_leaves 3 13 one_socket 100 0)
evl_select_monitor-Outcome_example =
    evl_select_monitor-Outcome one_leaves 3 Inv one_leaves-Rules one_socket one_tree
      one_socket-Watches refl 13 100 0 (refl, refl, refl) refl
      (λ nfds given tv world. says-Answers given world) (omega arith)

evl_select_discard_law_example : evl_select_discard 2 one_socket ≡ ok (disposed (1 ∷ []))
evl_select_discard_law_example =
    evl_select_discard_law 2 one_socket one_tree one_socket-Watches (omega arith)
