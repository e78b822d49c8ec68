-- ===== src/Lib.antt =====
-- The server of the game Sea Battle: its rules, games, players, lobby and connections.
--
-- A client connects and gets a session (Network/Session.antt, server/src/network/Session.cpp), which
-- exchanges frames with it (Protocol/Frame.antt, `packMessage` and `unpackMessage` of
-- server/src/protocol/MessageParser.cpp) and stands in the table of sessions (Network/Registry.antt,
-- server/src/network/SessionManager.cpp). The client becomes a player of the directory
-- (Players/Directory.antt, server/src/player/PlayerManager.cpp) with a record, friends and statistics
-- (Players.antt, Players/Friends.antt, Players/Stats.antt). Players meet in the lobby (Lobby.antt,
-- server/src/lobby/Lobby.cpp) by the queue (Lobby/Queue.antt, Matchmaker.cpp) or by an invitation
-- (Lobby/Invites.antt, InviteManager.cpp); then the game manager (Game/Manager.antt,
-- server/src/game/GameManager.cpp) opens a game (Game/Match.antt, Game.cpp), in which both place their
-- ships by the rules (Game/Rules.antt, GameRules.cpp) on their boards (Game/Board.antt and
-- Game/Ship.antt, Board.cpp and Ship.cpp) and shoot in turns. Nicknames are checked by
-- Game/Nickname.antt (`isValidNickname` of GameRules.cpp). The shared enumerations and constants are
-- in Types.antt (common/include/Types.hpp), lists, integers, sets, maps and exceptions in Base.antt.
--
-- State is passed explicitly: a method that changes an object is a function from its state to the
-- new one and the result, named in snake case after the method. Each method holds the mutex of its
-- object, so that it is one step; sequences of calls are the data types `Step` and `Reach` of the
-- modules. An `int` is an integer without a bound: coordinates are compared with the board before
-- they are used, and counters stay far below 2 ^ 31. The cast of a length to 32 bits and the 64-bit
-- session numbers wrap around as written. `reserve` with a negative size, and a player who is not
-- in the game, throw, and so does the JSON library for a number out of range, which the parser does
-- not catch: see Base/Exceptions.antt. A text that the JSON library hands on is a sequence of code
-- points here, and its bytes are those of its encoding in UTF-8. The buffer of a write of a session
-- is gone before the write ends, so that the bytes that are written are an argument. Objects behind
-- shared pointers that live in one table are named by their key there, and a weak pointer by the
-- key with a function that says whether it still locks.
--
-- Four loops run on fuel: `count_chars` gets as many steps as the nickname has bytes, and each step
-- reads one byte at least; `read_loop` gets as many as the stream has bytes, and each round reads a
-- header of four; `check_matchmaking` gets one more than the players in the queue, and each round but
-- the last takes two of them out; `hex` gets 16 steps, as many digits as a number of 64 bits has. All
-- other loops are structural.
--
-- Random draws, new identifiers, the clock, the liveness of sessions and the events of sockets are
-- arguments: a random placement (Game/Board/Random.antt and Game/Match/Lottery.antt) gets a list of
-- draws and has no result when they run out. What is read from a message (Protocol/Payload.antt, the
-- rest of MessageParser.cpp) and the messages that are built (Protocol/Builder.antt,
-- server/src/protocol/MessageBuilder.cpp) take the JSON library as a parameter; what that library
-- promises is the record `IsJson` of Protocol/Builder/Shape.antt. A message that is sent is a value of
-- Protocol/Messages.antt, which names the method that builds it. The error texts are in
-- Protocol/Codes.antt.
--
-- What the server does with a request (server/src/network/MessageHandler.cpp) is in Handler.antt:
-- the state `World` holds the lobby with games and players, the table of sessions, the player of
-- each session, and the messages sent; a handler is a function from it to the next one, or throws.
-- Handler/Dispatch.antt is `handleMessage`, Handler/Account.antt logging in, friends and
-- statistics, Handler/Meeting.antt the search and the invitations, Handler/Playing.antt the
-- requests about a game, Handler/Ending.antt the end of a game. What happens when a connection is
-- lost (`onSessionError` and `onPlayerDisconnect` of server/src/network/Server.cpp) is in
-- Handler/Departure.antt, and the part of it that concerns the lobby and the games in
-- Network/Departure.antt. Handler/Server.antt puts them together: the server at its start, the
-- callbacks of the sockets (`doAccept`), and the states that it can come to; the theorems on all of
-- it are in Handler/Safe.antt and Handler/Results.antt, with the identifiers that it gets taken to
-- be new. The handlers run one after the other, and so does what they call: the server runs several
-- threads, and what another thread does between two calls of one handler is not modelled, except in
-- `tryMatchPlayers`, where it is an argument. The command line is in Startup.antt (`parseArgs` of
-- server/src/main.cpp), with the reading of numbers as a parameter, and new identifiers in
-- Guid.antt (server/src/utils/GuidGenerator.cpp).
-- Not modelled: the sockets and threads of the server, logging, signals, and output to the console.
pub mod Base
pub mod Types
pub mod Game
pub mod Players
pub mod Lobby
pub mod Protocol
pub mod Network
pub mod Handler
pub mod Startup
pub mod Guid
mod Tests
