-- ===== src/Lib.antt =====
-- The lobby server: a verification library for the network library net/ and the server lobbysvr/.
--
-- A client's bytes arrive at a connection (net/connectionImpl.cpp), which puts them in a message
-- buffer (net/messageBuffer.cpp) and posts `MessageProcedure::dispatch` (net/messageProcedure.cpp).
-- That calls the packet parser (net/packetParserSimple.cpp, lobbysvr/packetParserJson.cpp), which
-- takes packets apart and hands each part to a handler: `readJsonPacket` of the lobby's acceptor
-- (lobbysvr/lobbyAcceptorReceiver.cpp) or of the broker's connector (lobbysvr/brokerConnector.cpp).
-- An answer is laid out by `SendJsonPacket` (lobbysvr/lobbyUser.cpp, lobbysvr/connectorUser.cpp)
-- and framed by `sendPacket`. lobbysvr/lobbyUserManager.cpp keeps the users of the connections.
--
-- Base and its children have the lists, options, Boolean tests and machine words that all share.
-- Net.Memory is the bytes behind a pointer. Net.Buffer is `MessageBuffer`, one definition for each
-- of its methods; Net.Buffer.Contents, Reads and Writes are about the bytes that it holds.
-- Net.Frame is the packet headers of the two parser files, Net.Frame.Codec the packets that they
-- make up. Net.Parser is the loop that the parsers share, with the format, the width of the packet
-- code and the handlers as parameters; Net.Parser.Phases has its steps, Spec what it is for,
-- Delivery that it does so with whole packets, Ends and Endings how it can end, Malformed what it
-- does with others. Net.SimpleParser, Net.CipherParser and Lobby.JsonParser have the parsers of the
-- two files, and Bodies and Handshake below Net.CipherParser are about a key exchange and what
-- follows it. Net.Connection is `ConnectionImpl`, Net.Dispatch `MessageProcedure`, Net.Lifecycle
-- the turns of the event loop, Net.Received what a read posts, Net.Sending what `sendPacket`
-- writes. Lobby.Protocol is include/lobby_protocol.h and include/broker_protocol.h, Lobby.SendJson
-- and Lobby.ReadJson the two ways of a packet, Lobby.Roundtrip and Lobby.EndToEnd the two together.
-- Lobby.OrderedMap is `std::map` as far as it is used, Lobby.Users is `LobbyUserManager`,
-- Lobby.Users.WellFormed, Registry and Delivery what it keeps and whom its sends reach: `sent` has
-- the calls of `SendJsonPacket` and `broker_calls` those of `BrokerConnector::sendJsonPacket`, and
-- what a call comes to, with what it makes of the value, is in Lobby.SendJson and Lobby.Broker.
-- Lobby.Handlers has the handlers of requests (lobbysvr/nh_lobby.cpp, lobbysvr/nh_chat.cpp,
-- lobbysvr/connectorHandler.cpp) and the two `dispatch` that call them, Lobby.Served the way of a
-- client's requests from the socket to them, Lobby.Events the event receiver of
-- lobbysvr/lobbyAcceptorReceiver.cpp and the events of the server. Net.Receiver is the table of
-- callbacks of net/eventReceiver.h. Net.Service is net/netService.cpp and net/netServiceImpl.cpp,
-- with Net.Service.Connects for net/netServiceConnector.cpp, Accepts for
-- net/netServiceAcceptor.cpp, and Turns for the event loop that completes what they start; Slots,
-- Connecting, Accepting, EndPoint and Identity are about them. Net.Console is `watchDogSession` of
-- net/test_interface.cpp with `inputLine` of lobbysvr/watchDogHandler.cpp, and its Text, Reads and
-- Commands are about what is typed into it. Lobby.Broker is `BrokerConnector` of
-- lobbysvr/brokerConnector.cpp over those services, Lobby.Broker.Reconnect, User and Numbers are
-- about it. Lobby.Start is the configuration (lobbysvr/environment.cpp) and the start of the
-- services (lobbysvr/main.cpp), with the flag USE_CONNECTOR_FOR_BROKER as an argument, since only a
-- build that defines it makes the connector of the broker, and Lobby.Start.Begin what they have
-- started. Net.Mssql is `DBConsumer::Open` and `DBConnection` of net/mssqlConsumer.cpp,
-- Net.Mssql.Consumer the queries and columns of `DBConsumer`, and Net.Mssql.Driver what they rely
-- on of ODBC; Opening, Leaks, Columns and Disconnects are about them. Net.Logger is the collector
-- of log files of net/loggerOld.cpp, Net.Logger.Files what it relies on of boost::filesystem,
-- Numbers and Backup are about it; Net.Logger.Sinks is the configuration of that file's `Logger`
-- and the sinks it makes, Resets and Logged are about them; Net.Logger.Dump is its `Dump`, and
-- Dumped how it is read back. Net.CrashDump is the directory, the configuration and the handles of
-- net/exceptionCrashDump.cpp. Net.Flags is net/flagChecker.h, Net.Addresses net/netUtil.cpp and
-- Net.Singletons net/singleton.h. A definition has the name of the function, in small letters.
--
-- A method that changes an object takes it and gives it back; an exception is a value, and a
-- `memcpy` past the end of an array is a value of its own (`overrun`), so that it can be ruled out
-- or shown. A pointer into an array is its distance from the array's start. A `uint32_t` wraps at 2
-- ^ 32. The memory that an allocation gives is an argument, of any contents. The loop of the
-- parsers runs on fuel: one more than the bytes held, which is enough since every pass takes four
-- of them. What the event loop and the operating system decide (error codes, the bytes of a read,
-- whether a shutdown succeeds) are arguments of the handlers; jsoncpp is the parameter `JsonLib`,
-- ODBC the parameter `Odbc` and boost::filesystem the parameter `FileSystem`, each with a state of
-- its own and with laws where a theorem needs them; the handlers of ciphers are parameters, with
-- the record `Cipher` for what a theorem asks of them. The loop of `Open` over attempts to connect
-- runs on fuel, one for each attempt; the loop of `Dump` has a round for each byte.
--
-- Not modelled: threads themselves (the strands run the handlers of a service one after the other,
-- and the handlers are run so here), the logger of net/logger.cpp, which only sets up boost::log,
-- the handlers and stack walks of net/exceptionCrashDump.cpp, which are calls of Windows,
-- lobbysvr/mysql+++ (a copy of another project) with the trials of it, and the compression of
-- packets. Of the logger in net/loggerOld.cpp the format of a line is left out, and the scan of
-- earlier files is not joined to the start of a file sink.
pub mod Base
pub mod Net
pub mod Lobby
