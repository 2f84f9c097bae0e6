-- ===== src/Lib.antt =====
-- Two C programs of a networking course: the IP router of assignment-3/router, which forwards
-- Ethernet frames that a VNS server exchanges with it, and the tic-tac-toe game of assignment-1/c
-- with its two servers and two clients.
--
-- The router. `sr_handlepacket` (sr_router.c) takes a frame from an interface. An ARP frame is
-- answered, or fills the ARP cache (sr_arpcache.c) and releases the packets that wait there; an IP
-- packet is answered by ICMP or forwarded along the routing table (sr_rt.c) out of one of the
-- interfaces (sr_if.c). `sr_read_from_server_expect` (sr_vns_comm.c) reads the server's messages
-- from a byte stream, and `sr_send_packet` hands a frame to the server. A timer thread ages the
-- cache and repeats ARP requests once a second.
--
-- The game. ttt.c has the rules. server-p1.c plays O at its terminal against one client-p1.c, move
-- by move over a socket, each side with its own board. server-p2.c has five rooms and a thread for
-- each client; the board of a room is the server's, and client-p2.c follows what it is told.
--
-- Files:
-- Base: words of the host, byte buffers, C strings, tests and list lemmas.
-- Checksum: `cksum` of sr_utils.c. Packet: the packed structs of sr_protocol.h as offsets.
-- Iface: sr_if.c. Route: sr_rt.c; Route/Match: the matching; Route/Load, Route/File: reading the
-- table from a file; Route/Listing: printing it. ArpCache: the operations of sr_arpcache.c on the
-- cache.
-- Router: `struct sr_instance` and a state monad whose runs can break off. Router/Send:
-- `sr_send_packet`. Router/Frames: the frames that are made. Router/Icmp: `send_icmp_msg` and
-- `handle_arpreq`. Router/Handle: `sr_forward_ip_packet`, `sr_handlepacket`, the sweep and a round
-- of the timer.
-- Router/Keeps: an interface of laws on the calls that change the state, from which every handler
-- keeps a predicate and breaks off in the allowed faults only; Router/Invariant and Router/Fuel
-- fill it. Router/Timer: the walk over the request queue; Router/Sweep: what a round of the timer
-- does; Router/Wire: what the server reads in a message. Router/Messages, Router/Address,
-- Router/Arrival, Router/Reach, Router/NextHop, Router/Forward, Router/Echo, Router/Ping,
-- Router/ErrorFrame, Router/Errors, Router/Miss, Router/Transit, Router/Flush, Router/Ask and
-- Router/Resolve: the behaviour of the handlers.
-- Vns: what sr_vns_comm.c does with a message of the server, and `sr_verify_routing_table` of
-- sr_main.c; Vns/Interfaces, Vns/Routes, Vns/Commands: what comes of it. Vns/Stream: the loops
-- that read a message from the connection; Vns/Framing, Vns/Delivery: whole and truncated
-- messages. Vns/Session: the authentication, the routing table file and the messages that open a
-- session; Vns/Session/Reply: what the server reads in the reply. Vns/Connect: a message with the
-- handlers of sr_vns_comm.c, `sr_connect_to_server`, and the loop of `main` over
-- `sr_read_from_server`; Vns/Loop: the loop against the messages one by one; Vns/Handshake,
-- Vns/Opening: a server that keeps to the protocol; Vns/Inversion, Vns/Authenticated: any server.
-- Main: the command line and the steps of `main` in sr_main.c; Main/Startup, Main/Welcome: what it
-- has done when it serves.
-- Dump, Dump/Reading: the packet log of sr_dumper.c and `sr_log_packet`, as bytes, beside the
-- session, whose model does not keep it.
-- Print: what sr_utils.c prints; Print/Bounds, Print/Dotted: where it reads, and the text of an
-- address.
-- Game: assignment-1/c/src/ttt.c. Game/Win, Game/Play: its rules. Text: the calls of the C library
-- that read a command.
-- ServerP1, ClientP1: server-p1.c and client-p1.c of assignment-1/c/src as steps over what their
-- blocking calls return; ServerP1/Verdicts, ClientP1/Verdicts: their endings, and a response that
-- the client does not understand.
-- Duel: this client and server joined by a connection that delivers each message whole and in
-- order; Duel/Agree: what the two have in common; Duel/Reads, Duel/Lines, Duel/Moves,
-- Duel/Ignored: commands that both read, boards, moves and idle events; Duel/Typing, Duel/Hearing,
-- Duel/Steps: whole games.
-- Rooms: the rooms of server-p2.c. ServerP2: its threads, which are interleaved at the sections
-- that a room's mutex guards and at the calls of `recv`; ServerP2/Cells: reads after writes;
-- ServerP2/Games, ServerP2/OneGame: how many threads play in a room; ServerP2/Joins: two clients
-- that join; ServerP2/Stuck: games that are not counted to 9. ClientP2: client-p2.c;
-- ClientP2/Messages: two messages in one.
-- Examples: concrete inputs, and the theorems at them.
--
-- The model. A frame is the list of its bytes, and a store through a struct pointer writes bytes
-- at an offset, on a little-endian host. The nodes of the request queue carry addresses, so that a
-- pointer that outlives its node is seen as such. A run ends in `done`, or in `fault` where the C
-- code reads outside an object, follows a null pointer, uses freed memory or fails an assertion.
-- `malloc` returns bytes of any content and never null; `write` takes any number of bytes, given
-- by the state, and the state lists the messages handed to it; `time` is an argument. The two
-- threads of the router are interleaved event by event: a frame is handled to its end before the
-- timer runs, although the C code locks the cache only within each operation on it. A call of
-- `recv` or `read` takes any part of the bytes that are there, is interrupted or fails, as a list
-- of calls says. In the room server the fields that nothing sets hold any value; the game is
-- `int`-counted there from a number that is not negative. `atoi` and `sscanf` do not overflow in
-- the model, and a number below 0 is taken as 0 where the code refuses both.
--
-- Bounds. `send_icmp_msg` and `handle_arpreq` call each other; the model descends `fuel` calls and
-- breaks off with a fault of its own below that. One call is enough unless a request is due to be
-- given up; a run that gives up a request with a packet goes deeper or breaks off by a use of
-- freed memory. The sweep visits as many nodes as the queue has when it starts. The loop of
-- `cksum` that folds carries runs for at most three rounds; two bring any 32-bit sum to 16 bits.
-- All other loops are recursion on the list that they read.
--
-- Arguments of the definitions are SHA-1, `inet_aton`, `inet_ntoa`, in `handle_command` the
-- handlers of the routing table file and of the authentication, and for the process what `getopt`,
-- `atoi`, `getpwuid`, `send` and the opening of files return and what the files hold. A round of
-- the loop of `main` takes place at a time of a list, after rounds of the timer thread at other
-- times of it; when that is used up the loop goes on outside the model. A template or a user name
-- that fills its array of struct sr_instance, which `strncpy` leaves without a NUL, breaks the
-- process off before the session is opened, where `strlen` would run on at the latest.
--
-- Not modelled: the printing of the interface list and of the ARP cache, `getopt` and the calls
-- that find and reach the VNS server, whose results are parameters, the third-party SHA-1, the
-- setting up of sockets, and the programs of the repository in other languages.
pub mod Base
pub mod Checksum
pub mod Packet
pub mod Iface
pub mod Route
pub mod ArpCache
pub mod Router
pub mod Vns
pub mod Main
pub mod Print
pub mod Dump
pub mod Examples
pub mod Text
pub mod Game
pub mod ServerP1
pub mod ClientP1
pub mod Duel
pub mod Rooms
pub mod ServerP2
pub mod ClientP2
