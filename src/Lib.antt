-- ===== src/Lib.antt =====
-- tcp-striper: pipes over TCP sockets, as src/io, src/sys and src/evl of the repository build them,
-- and the map of src/data that the event loop keeps its sockets in.
--
-- A pipe (src/io/inc/libp/io_pipe.h) is a duplex stream with state bits, the operations recv(),
-- send() and send_fin(), and a callback. A TCP pipe wraps a socket and is called by the event
-- loop; an atomic pipe wraps a pipe and takes a packet whole or not at all; a datagram pipe wraps
-- an atomic pipe and puts a size before each packet; a bridge relays between two pipes. Pipes can be
-- stacked: Pipe/Contract states what the comment of io_pipe.h asks of each of them, Tcp/Streams is
-- about the TCP pipe in these terms, and Atx/Atomic about the atomic pipe over any carrier.
--
-- The files and the code:
--   Base, Run        helpers on lists, bits and tests; Run is the outcome of code that asserts
--                    (src/core/inc/libp/assert.h): a result, or `aborted`.
--   Serialize        src/io/src/io_serialize.c: io_store_size() and io_parse_size(). Buffers are lists
--                    of bytes; size_t has 64 bits. Store and Parse say what is written and read,
--                    Answers and RoundTrip what follows for the two functions.
--   Buffer           src/io/src/io_buffer.c and io_buffer.h: a block of memory with the bytes in use
--                    from `head` on, an offset. Contents is the view of it as a list.
--   Pipe             src/io/inc/libp/io_pipe.h and src/io/src/pipe_misc.h: the bits, the events, the
--                    operations as a record over a state, and the contract. Sample is a pipe in
--                    memory that keeps it.
--   Socket           src/sys/inc.linux/libp/socket.h: sk_recv(), sk_send() and the classes of errors.
--                    The system calls and the three calls of the event loop (event_loop.h) are a
--                    record over a state of the world; Laws states what they are documented to do.
--                    Sample is a world that does so.
--   Tcp              src/io/src/io_pipe_tcp.c: its state is the pipe's fields and the world. Mask has
--                    the invariant that the event loop watches for what the bits call for, Events
--                    what the callback is told, Streams and Fin the contract.
--   Atx              src/io/src/io_pipe_atx.c, over the record of operations of its carrier. Atomic
--                    has the contract, Flush the events of the carrier, Fin the FIN that is put off.
--   Dgm              src/io/src/io_pipe_dgm.c, over the record of operations of an atomic carrier.
--                    Frames has the wire format and process_rx(), Adjust adjust_rx(), Passing, Receive
--                    and Send the datagrams of a peer that speaks the format, Cut and Hostile recv()
--                    on bytes of any kind, Faults where recv() departs from what its comments say.
--   Bridge           src/io/src/io_bridge.c, over the operations of two pipes. Sending and Flush have
--                    the side that sends, Round and Relay the loop, Activity the handler of events.
--   Map              src/data/src/map.c and map.h: the items in a heap, by their addresses, and a
--                    `map_item **` as a slot. Find has the search as one in a tree, Link what a
--                    new link changes, Add and Insert the insertion, RoundTrip add and then find.
--                    Zipper and Aside have the tree around a slot, Walk and Order map_walk(), Cut,
--                    Unlink and Delete map_del() of an item with at most one child.
--   EventLoop        src/evl/src.linux/event_loop_select.c over Map: the sockets' records in memory
--                    by address, the sets of select() as functions of the descriptor. Monitor is
--                    evl_select_monitor(), with select() and the callbacks as parameters. Find, Order
--                    and Removal have the tree by descriptor, Watches the sets and nfds in step with
--                    it, Add, Mod and Del (with Highest) the three calls, Like, Gather, Steady,
--                    Dispatch and Serve the run of monitor() when callbacks only change masks. View
--                    is what a caller can tell of the loop, Effects, Perform and Requests the calls
--                    that a callback makes, Calls, Called, Walking, Restart and Settle the run of monitor() when
--                    callbacks add and delete sockets or discard the loop, Dispose its end.
--
--   Hlist            src/data/inc/libp/list.h: the items in a heap, and a `hlist_item **` as a link.
--                    Front and Delete have hlist_add_front() and hlist_del().
--   Proxy            src/tcp-proxy.c and src/tcp-relay.c: the arguments, in Args printed and parsed;
--                    Setup has the sockets and the stack of pipes.
--
-- How the code is represented: a handler is a function from the state and its arguments to a Run of
-- the new state and the result; a result of -1 is `none`, or `false` for send_fin(). The callback
-- is the last thing that a handler does, and is returned as the events that it is given. An
-- enum mask is a record of its bits.
--
-- The retries of sk_recvfrom() and sk_sendto() are no structural recursion: they run
-- on fuel, the number of signals that the world has yet to deliver, which is enough since an
-- interrupted call uses one up. The loop of io_parse_size() is a recursion on its buffer. The
-- loop of br_bridge_relay() runs on fuel too, and without fuel it fails if it is to go on: more
-- fuel than there are bytes arriving is enough. So do the loops of the map; the number of items is
-- enough for the search. The loop of dispatch in evl_select_monitor() has fuel of its own, since a
-- callback that adds or deletes a socket makes it start over: one walk for each socket that select()
-- has reported is enough.
--
-- A callback of the event loop returns nothing, and learns nothing from the loop; so it is modelled
-- by what it does to the world and the list of calls of the loop that it makes.
--
-- A `size_t` that becomes an `int` of 32 bits is cut (as_int), and the contract of a pipe is for packets
-- of any length or, over the atomic pipe, of fewer than 2 ^ 31 bytes. FD_SET() of a descriptor from
-- FD_SETSIZE on is not defined in C; add_socket() of it is `aborted` in the model. A copy beyond the end
-- of the caller's buffer is not defined either; it shows as a datagram that is longer than the buffer.
--
-- Not modelled: allocation failure (the code asserts or ignores it), free() and the discard()
-- beyond what it does to the world, the diagnostic output, and callbacks that call back into the
-- pipe; of the programs, the loop around monitor() and what they print. atoi() of a number that is no
-- int, which is not defined, is taken to go on with the conversion.
pub mod Base
pub mod Run
pub mod Serialize
pub mod Buffer
pub mod Pipe
pub mod Socket
pub mod Tcp
pub mod Atx
pub mod Dgm
pub mod Bridge
pub mod Hlist
pub mod Map
pub mod EventLoop
pub mod Proxy
