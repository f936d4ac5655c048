-- ===== src/Lib.antt =====
-- The message core of skynet, under tower/share/skynet.
--
-- Skynet runs services that own a message queue each. Worker threads take a queue from the global
-- queue, serve a message and put the queue back; timers and sockets push messages. The parts here:
--
--   Mq         skynet-src/skynet_mq.c: `MessageQueue` is `struct message_queue`, with `pop`, `length`,
--              `enqueue` and `expand_queue` for skynet_mq_pop, skynet_mq_length, the body of
--              skynet_mq_push and expand_queue. Mq.Global has the linked list of queues:
--              `Store` maps an address to a queue; globalmq_push, globalmq_pop, push, mark_release
--              and release are the functions of that name with skynet_ or skynet_mq_ before it.
--   Netpack    lualib-src/lua-netpack.c: `Queue` is `struct queue`, its hash chains lists;
--              Netpack.Filter has filter_data_, Netpack.Session the client loop
--              (lualib/snax/gateserver.lua).
--   Timer      skynet-src/skynet_timer.c: `Timer` is `struct timer`; add_node, move_list,
--              timer_shift, timer_execute and timer_update are the functions of that name.
--   Handle     skynet-src/skynet_handle.c: `HandleStorage` is `struct handle_storage`; register, grab
--              and init are skynet_handle_register, _grab and _init; Handle.Names has _findname,
--              _namehandle and _retire with the binary search; Handle.All has _retireall.
--   Gate       service-src/databuffer.h and the part of service-src/service_gate.c that handles the
--              bytes of a connection: read, push, readheader, forward and dispatch_message.
--              Gate.Socket has dispatch_socket_message on `Gate`, which is `struct gate`.
--   HashId     service-src/hashid.h: init, lookup, insert, remove and full.
--   Crypt      lualib-src/lua-crypt.c: ltohex, lfromhex, lb64encode and lb64decode.
--   Socket     skynet-src/socket_server.c, for TCP: `Socket` is `struct socket`, whose functions of that
--              name stand in Socket (force_close, send_list_tcp, send_buffer), Socket.Request
--              (send_socket, close_socket) and Socket.Receive (forward_message_tcp, report_connect and
--              the switch of socket_server_poll). Socket.Server has the table of the sockets with
--              reserve_id, new_fd and the requests that open a socket; Socket.Server.Control has
--              ctrl_cmd, report_accept and the switch on the table. Socket.Life puts requests and
--              events in sequence.
--   Seri       lualib-src/lua-seri.c: `WriteBlock` is `struct write_block`; Seri has wb_push and seri,
--              Seri.Write luaseri_pack and what it calls, Seri.Read luaseri_unpack and what it calls.
--   Dispatch   skynet-src/skynet_server.c and skynet_monitor.c: message_dispatch is
--              skynet_context_message_dispatch, on the store of Mq.Global; `Node` has what the workers
--              share. A callback is an argument, which answers a call, given the calls made before,
--              with the messages that it sends. Dispatch.Schedule says where each queue is.
--   Base       shared tests, lists, bit fields, fixed arrays and circular arrays.
--
-- Conventions. Each function that takes a spin lock is one step; where the code gives the lock up in
-- between (timer_execute), what other threads do there is an argument. A C array is a list, or a
-- function of the index when its size is fixed. An address is a number, 0 is NULL; a failed assert
-- or a read through a wrong address is `none`. `uint32_t` arithmetic is written with `% 2 ^ 32`.
-- An `int` that a size is cast to, or a sum of `int`s that can overflow, is written out as well: the
-- cast is `to_int32`, and what is undefined beyond the range is `none`.
--
-- What the system answers to the socket server is an argument: `write` takes a list of replies, and says
-- EAGAIN when there are no more; `read`, `accept`, `connect` and `sp_add` take one each. What is done to
-- the outside is a list of effects.
--
-- Loops that C bounds by data recurse on that data; reserve_id recurses on its tries, send_list_tcp on
-- the replies. The others run on fuel: the shift loop of
-- the timer on its four levels, the loop of timer_execute on two rounds, since its requests are all
-- in the future, push_more on the length of its input, skynet_handle_register and _retireall on two
-- rounds, the binary search on the number of names, dispatch_message of the gate on the number of
-- bytes, hash_capacity on the capacity, lb64decode on the number of characters, the client loop
-- on the capacity of its queue, wb_push on the number of bytes, and luaseri_unpack on three times the
-- number of bytes. Each round of these takes a part of what its fuel counts.
--
-- Not modelled: contexts that are made or retired by a callback, with their reference counts, the
-- commands of skynet_server.c, messages to other nodes, the Lua and socket interfaces, UDP, the loop of socket_server_poll around its
-- switch with its array of events, the pipe through which requests come to the socket server,
-- memory allocation failures, the clock, negative socket ids, the text commands and client
-- messages of the gate, the ciphers and hashes of lua-crypt.c, the other C files of skynet-src,
-- service-src and lualib-src, and the vendored code under 3rd.
pub mod Base
pub mod Mq
pub mod Netpack
pub mod Timer
pub mod Handle
pub mod Gate
pub mod HashId
pub mod Crypt
pub mod Socket
pub mod Seri
pub mod Dispatch
