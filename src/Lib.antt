-- ===== src/Lib.antt =====
-- The relay of FujiNet golf on the Intellivision: up to four consoles meet in a lobby, form a room,
-- and play in lockstep by way of a server that relays their frames.
--
-- The program's parts: server/intv_relay_server.py is the matchmaking and relay server, one process
-- with one thread for all clients and one for the FujiNet Lobby; tools/ has the tools that examine
-- the game's ROM, compare traces and exercise the server; src/ is the console's side in assembly,
-- and server/c a second server in C. The development is about the Python server and some tools.
--
-- Which file models which part:
--   Base, Base/*    lists, dicts and tests that the other files share
--   Wire            constants of the protocol; names on the wire
--   Relay/World     `Server`, `Client` and `Room` as one state: objects are numbers, each attribute
--                   is a table over them; a method is a function from a state to an outcome
--   Relay/Outcome   outcomes: a return, a raise with the state as it was then, or no fuel
--   Relay/Output    `frame`, `pad_name`, `Room.roster`, `Server.send`, `flush`, `_update_events`,
--                   `room_broadcast`, `dissolve`, `drop`, `lobby_update`
--   Relay/Crc       `Server.log_crc`
--   Relay/Handlers  `Server.handle`, `on_hello`, `_status`, `on_list`, `on_join`, `on_go`,
--                   `start_room`
--   Relay/Service   `Server.__init__`, `accept`, `service`, `sweep`, `run`
--   Lobby           `LobbyPublisher`: `__init__`, `update`, `shutdown`, `_run`, `_post`
--   Tools/Words, Tools/DumpRom, Tools/CheckPatch
--                   tools/dump_rom.py, `words` and `main` of tools/check_patch.py
--   Tools/Patches   tools/patches.py
--   Tools/Dump      `parse` of tools/crc_trace_diff.py
--   Tools/CellDiff, Tools/TraceDiff, Tools/DestPhase, Tools/Replay
--                   tools/cell_diff.py, `main` of tools/crc_trace_diff.py,
--                   tools/check_dest_phase.py, tools/mk_replay.py
--   Tools/Recon, Tools/Recon/Names, Tools/Recon/Report
--                   `words`, `Rom` and `report` of tools/recon.py
--   Clients/Sim     `frame`, `pad`, `st`, `Cli`, `lobby_status`, `roster_names` of
--                   tools/bbnet_client_sim.py
--   Clients/Ghost   `main` of tools/ghost_peer.py, as steps on its state
--   Clients/Idlers  test/lobby_idlers.py, as rounds on its state
--   Clients/Soak    the frames of tools/soak.py, and how it judges its samples
--   Clients/Diff    `frame`, the recording of `Ctx.sync`, `render`, `normalize_log`, `compare` of
--                   tools/server_diff.py
--   Clients/Script, Clients/Script/Scenarios, Clients/Script/VersionOne, Clients/Script/Choice
--                   `Client` and `Ctx`, the scenarios, `run` and the choice of scenarios of
--                   tools/server_diff.py
--   Clients/Gate, Clients/Gate/*
--                   the scenarios of tools/bbnet_client_sim.py
-- and for the proofs:
--   Relay/Invariant `Inv`, the well-formedness of a state, and how a state may evolve
--   Relay/Frames    what the frame builders yield
--   Relay/Settles   total correctness of the calls that send or drop
--   Relay/Handles   of the handlers
--   Relay/Loop      of the event loop
--   Relay/Effects, Relay/Delivery, Relay/Telling, Relay/Announce, Relay/Listing
--                   what the calls that send put on the wire, as long as the sockets take it
--   Relay/Fanout, Relay/Starts, Relay/Joins, Relay/Leaves, Relay/Greets
--                   what each handler does, branch by branch, and who gets what
--   Relay/Matches, Relay/Rounds, Relay/Framing
--                   a match frame by frame, rounds of checksums, and the division into frames
--   Lobby/Newest, Lobby/Progress, Lobby/Escapes
--                   what the publisher's requests say, that they are made, and what ends them
--   Tools/Dump/Lines
--                   a printer of dumps, and the round trip
--   Tools/TraceDiff/Ring, Tools/TraceDiff/Passes, Tools/TraceDiff/Cells
--                   the slots of the ring, what a pass means, and the settled state
--   Tools/Recon/Calls, Tools/Recon/Refs, Tools/Recon/Report/*
--                   what the scans find, and what the report says
--   Clients/Sim/Stream, Clients/Sim/Drain, Clients/Sim/Names, Clients/Sim/Statuses
--                   the simulated console against the server's frames
--   Clients/Ghost/*, Clients/Soak/Match
--                   the ghost and the soak test against the server
--   Clients/Diff/Records, Clients/Diff/Verdicts
--                   what is recorded and compared of two servers
--   Clients/Script/Served
--                   scripts at the server
--   Relay/Tests, Relay/RoomTests, Relay/MatchTests, Lobby/Tests, Clients/Tests,
--   Clients/ScriptTests, Clients/GateTests, Clients/IdlersTests, Tools/Tests,
--   Tools/RunTests, Tools/Recon/Tests
--                   the theorems at concrete inputs; Relay/Worlds has states for them
--
-- A record `Os` stands for the sockets and the random generator: the answers to each `sock.send`
-- and each `randrange` are arbitrary, except that seeds are below 65536. `run` is a function of the
-- events that `select` reports: connections with their address and time, sockets that are writable
-- or readable with what `recv` yields, and the sweeps.
--
-- Fuel: `flush` runs at most once for each queued byte and once more; `service` at most once for
-- each buffered byte and once more; a loop over a room's members at most once for each member and
-- once more; `drop` nests at most as deep as there are clients. Each round takes a byte or a member
-- off what is left, and each nested `drop` a client off the set, so these bounds, which the
-- definitions compute, are enough. `drain_lobby`, the recording of `Ctx.sync` and the loops of the
-- ghost and the idlers over a buffer run at most once for each byte of the stream, and each round
-- takes a frame off it. In `scenario_full`, a player reads one frame more than there are seats for
-- its START. The walk over a timer table of tools/recon.py runs at most once for each word of the
-- image and once more, and goes four words on each time.
--
-- Not modelled: log output (but for the verdicts of `log_crc`), `log_stats`, the command line, the
-- listening socket, and HTTP. In the server's state, `LobbyPublisher` is the fields that `update`
-- writes; Lobby has its two threads, and of a request the fields that change. The tools' printed
-- text is modelled by what it says, and files by their bytes. `drop` leaves out `sock.close`, whose
-- errors the code ignores; `accept` leaves out the socket's options. What a regular expression
-- finds in a debugger's log is an argument, and the floating-point rates that tools/recon.py prints
-- are left out. Of the simulated console, the ghost and the idlers, what `recv` yields is an
-- argument, and so are `decode` and the patterns for log lines. The scenarios of
-- tools/server_diff.py and tools/bbnet_client_sim.py are played with each send reaching the server
-- at once and in one piece; pauses between sends, sockets, processes, option parsing and the search
-- of the server's log for words are left out, and so are the sampling of tools/soak.py, and the
-- test servers, which are socket code throughout. Times are in microseconds, and the order of the
-- set of clients is that of connection.
pub mod Base
pub mod Wire
pub mod Relay
pub mod Tools
pub mod Lobby
pub mod Clients
