-- ===== src/EventLoop/Steady.antt =====
-- Callbacks (src/evl/src.linux/event_loop_select.c, the dispatch of monitor()) that only change
-- the masks of sockets in the loop, as a TCP pipe does (src/io/src/io_pipe_tcp.c).
use mathlib.Core.Path.{fun_ext}
use tcp_striper.Base.{
  ℕ, ◌≤◌, ◌≡◌, refl, ◌∙◌, true, false, Option, none, some, List, [], ◌∷◌, All, is_some,
}
use tcp_striper.Run.{ok, ◌>>=◌, Returns, Returns-bind, Returns-imp, Returns-value}
use tcp_striper.Socket.{SkEvents}
use tcp_striper.Map.Find.{Tree, size}
use tcp_striper.EventLoop.{
  EvlSelect, SelectSk, Left, running, disposed, remask, evl_select_mod_socket,
}
use tcp_striper.EventLoop.Find.{find_sk}
use tcp_striper.EventLoop.Watches.{number, Watches}
use tcp_striper.EventLoop.Like.{field_kept, Like, Like-trans, Masks-Watches}
use tcp_striper.EventLoop.Gather.{set_have-Told}
use tcp_striper.EventLoop.Mod.{Mods, evl_select_mod_socket_law}
use tcp_striper.EventLoop.Monitor.{
  Request, add_socket, mod_socket, del_socket, discard, Outside, no_events, set_have, perform,
  perform_all, out_of_callback, call_back,
}

-- The call changes the mask of a socket that is in the loop.
abbrev pub IsMask : {C : Type 0} → (ℕ → ℕ) → Tree → Request C → Type 0
IsMask k t (add_socket fresh sk events cb) = ⊥
IsMask k t (mod_socket sk events) = is_some (find_sk k sk t) ≡ true
IsMask k t (del_socket sk) = ⊥
IsMask k t discard = ⊥

module _ {C : Type 0} (t : Tree) (k : ℕ → ℕ) (rounds : ℕ) (enough : size t ≤ rounds) where
  abbrev pub Kept : EvlSelect C → Left C → Type 0
  Kept evl (running evl') = Watches evl' t × Like evl evl'
  Kept evl (disposed freed) = ⊥

  Like-refl : (evl : EvlSelect C) → Like evl evl
  Like-refl evl = record {
    sockets = refl;
    sk = λ b. refl;
    cb = λ b. refl;
    have = λ b. refl;
    map_touched = refl;
    dead = refl;
  }

  remask-Like :
      (evl : EvlSelect C) (a sk : ℕ) (events : SkEvents) → Like evl (remask evl a sk events)
  remask-Like evl a sk events =
      let ssk = record (evl.sks a) { events = events } in
      record {
        sockets = refl;
        sk = field_kept (λ (s : SelectSk C). s.sk) evl.sks a ssk refl;
        cb = field_kept (λ (s : SelectSk C). s.cb) evl.sks a ssk refl;
        have = field_kept (λ (s : SelectSk C). s.have) evl.sks a ssk refl;
        map_touched = refl;
        dead = refl;
      }

  mod-Kept :
      (evl : EvlSelect C) (sk : ℕ) (events : SkEvents)
      → Watches evl t
      → number evl ≡ k
      → is_some (find_sk k sk t) ≡ true
      → Returns
          (λ evl'. Watches evl' t × Like evl evl')
          (evl_select_mod_socket rounds evl sk events)
  mod-Kept evl sk events w num is_there =
      by_found (find_sk (number evl) sk t) (rw num is_there)
        (evl_select_mod_socket_law evl t rounds sk events w enough)
    where
      by_found :
          (x : Option ℕ)
          → is_some x ≡ true
          → Mods evl t sk events x (evl_select_mod_socket rounds evl sk events)
          → Returns
              (λ evl'. Watches evl' t × Like evl evl')
              (evl_select_mod_socket rounds evl sk events)
      by_found none e law = cc
      by_found (some a) e law =
          Returns-imp _ _ (evl_select_mod_socket rounds evl sk events) law
            (λ evl' h. (h.0, rw h.2 (remask-Like evl a sk events)))

  perform-Kept :
      (evl : EvlSelect C) (request : Request C)
      → Watches evl t
      → number evl ≡ k
      → IsMask k t request
      → Returns (Kept evl) (perform rounds (running evl) request)
  unfolding perform
  perform-Kept evl (add_socket fresh sk events cb) w num m = elim m [ ]
  perform-Kept evl (mod_socket sk events) w num m =
      Returns-bind _ (Kept evl) (evl_select_mod_socket rounds evl sk events) _
        (mod-Kept evl sk events w num m) (λ evl' h. h)
  perform-Kept evl (del_socket sk) w num m = elim m [ ]
  perform-Kept evl discard w num m = elim m [ ]

  perform_all-Kept :
      (requests : List (Request C)) (evl : EvlSelect C)
      → Watches evl t
      → number evl ≡ k
      → All (IsMask k t) requests
      → Returns (Kept evl) (perform_all rounds (running evl) requests)
  unfolding perform_all
  perform_all-Kept [] evl w num m = (w, Like-refl evl)
  perform_all-Kept (request ∷ requests) evl w num m =
      Returns-bind _ (Kept evl) (perform rounds (running evl) request) _
        (perform-Kept evl request w num m.0)
        (λ left h. onward left h (λ e we ne. perform_all-Kept requests e we ne m.1))
    where
      onward :
          (left : Left C)
          → Kept evl left
          → ((e : EvlSelect C)
              → Watches e t
              → number e ≡ k
              → Returns (Kept e) (perform_all rounds (running e) requests))
          → Returns (Kept evl) (perform_all rounds left requests)
      onward (running e) h rest =
          Returns-imp _ _ (perform_all rounds (running e) requests)
            (rest e h.0 (fun_ext h.1.sk ∙ num)) (λ left' h'. longer left' h')
        where
          longer : (left' : Left C) → Kept e left' → Kept evl left'
          longer (running e') h' = (h'.0, Like-trans evl e e' h.1 h'.1)
          longer (disposed freed) h' = elim h' [ ]
      onward (disposed freed) h rest = elim h [ ]

  module _ {W : Type 0} (outside : Outside C W) (world : W) (evl : EvlSelect C) (a : ℕ) where
    abbrev pub called : W × List (Request C)
    called = outside.call (evl.sks a).cb (evl.sks a).have world

    pub call_back-Like :
        Watches evl t
        → number evl ≡ k
        → All (IsMask k t) called.1
        → Returns
            (λ (q : W × EvlSelect C).
              (q.0 ≡ called.0) × Watches q.1 t × Like (set_have evl a no_events) q.1)
            (call_back outside rounds world evl a)
    unfolding call_back
    call_back-Like w num m =
        let told = set_have-Told evl a no_events in
        let evl1 = record (set_have evl a no_events) { in_callback = true } in
        let w1 =
          Masks-Watches evl evl1 t
            (record { sets = told.masks.sets; sk = told.masks.sk; events = told.masks.events }) w in
        let (left, made, good) =
          Returns-value (Kept evl1) (perform_all rounds (running evl1) called.1)
            (perform_all-Kept called.1 evl1 w1 (fun_ext told.masks.sk ∙ num) m) in
        rw made (ended left good)
      where
        ended :
            (left : Left C)
            → Kept (record (set_have evl a no_events) { in_callback = true }) left
            → Returns
                (λ (q : W × EvlSelect C).
                  (q.0 ≡ called.0) × Watches q.1 t × Like (set_have evl a no_events) q.1)
                (out_of_callback left >>= λ evl'. ok (called.0, evl'))
        ended (running e) (we, h) = (
          refl,
          Masks-Watches e (record e { in_callback = false }) t
              (record { sets = (refl, refl, refl, refl, refl); sk = λ b. refl; events = λ b. refl })
              we,
          record {
            sockets = h.sockets;
            sk = h.sk;
            cb = h.cb;
            have = h.have;
            map_touched = h.map_touched;
            dead = h.dead;
          },
        )
        ended (disposed freed) h = elim h [ ]
