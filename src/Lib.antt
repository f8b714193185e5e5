-- ===== src/Lib.antt =====
-- The Instant Messaging Program: a client in C++ (client/) that registers at a server, lists the other
-- clients, exchanges keys with them and sends them texts and files, and the server in Python (server/)
-- that keeps the clients and the messages that wait for them. Its parts:
--
-- MessageUClient reads server.info and my.info, then carries out commands until the user leaves. A
-- round reads a command (UserCommandConsoleParser), makes a request of it (UserCommand, which reads and
-- changes ClientInMemoryDataManager and encrypts with AESWrapper, RSAWrapper, Base64Wrapper), sends the
-- request and receives the response (TCPNetworkClientManager, which calls ServerRequest and
-- ServerResponse for each partition of 1024 bytes), and lets the response change the data manager and
-- the files (handleResponse).
--
-- A session of the server (message_u_server.py) receives the partitions of one request
-- (request_parser.py), checks and carries it out (message_u_manager.py, storage_handler.py) and sends
-- the answer (response_handler.py); messages that were pulled are deleted after they were sent.
--
-- Files:
--   Base         what the program takes from C++: exceptions and undefined behaviour as results
--                (Results), methods that change an object (Exec, and what they make in Exec/Makes),
--                raw buffers (Memory), std::string (Text), std::stoi and streams (Numerals), std::map
--                (StdMap), unsigned arithmetic.
--   Common       client/common.h.
--   Codec        numbers and client ids in a buffer (helpers of client/ServerRequest.cpp and
--                client/ServerResponse.cpp).
--   ServerRequest   client/ServerRequest.cpp; Format is the wire format, Partition one partition, Any is
--                about requests with any text as an id.
--   ServerResponse  client/ServerResponse.cpp: the factory and the parsers; Handle is handleResponse,
--                Payload, Arrival, Message, Loops and Safety are about memory, Posted, Messages and
--                Clients about payloads that a server wrote.
--   TcpNetworkClientManager  client/TCPNetworkClientManager.cpp; Partitions, SendMessage, Send,
--                Bounds and Sending are about its first loop, Receive, Reassembly and Answer about the
--                second one.
--   ClientInMemoryDataManager  client/ClientInMemoryDataManager.cpp; Consistency, Lookup and
--                Listing are about its two maps.
--   Environment  client/AESWrapper.cpp, and as parameters Crypto++, the random numbers of the
--                processor and the files that are only read.
--   Base64Wrapper  client/Base64Wrapper.cpp.
--   RsaWrapper   client/RSAWrapper.cpp: Public and Private are its two classes, KeyPair is about the
--                two keys of one pair.
--   World        the state that commands and responses change.
--   UserCommand  client/UserCommand.cpp.
--   UserCommandConsoleParser   client/UserCommandConsoleParser.cpp; Commands is about its results.
--   InfoFiles, MessageUClient  client/MessageUClient.cpp; UserInfo is about my.info, Agreement and
--                Rounds about what a run of the loop keeps, Ending about its input; Opening, Steady,
--                Fitting, Defined and Unbroken about calls that return or throw.
--   EndToEnd     two clients that exchange a text and a file, and where their keys come from; KeyExchange
--                is about a key.
--   Conversation rounds of two clients (client/MessageUClient.cpp) with the server between them: Steps is
--                one round, Sending, Pulling and Rounds are about a message of any type, Texts and Keys
--                about texts and keys.
--   Server       the server (server/, in Python). Struct is what it uses of Python; Requests is
--                server/request.py and server/request_parser.py, Responses server/response_handler.py
--                and server/message.py, Storage server/storage_handler.py, Manager
--                server/message_u_manager.py and _handle_request, Receiving and Sessions the rest of a
--                session of server/message_u_server.py, Events its start and its loop, with Port,
--                Survival, Sent, Unsent and Invariant. Headers, Content, Understood, Parsing and
--                FromClient are about requests that the client wrote, Outcomes, Safety and ShortRead
--                about any other input, Answered, Serving and Reading about answers, Exchange about
--                client and server together, Mailbox, Overfull and Soundness about the tables.
--   Tests        the theorems at concrete values.
--
-- A method of a class is a function of the same name in antt's spelling; a class hierarchy is a data
-- type with a constructor for each class; an object that a call changes is returned by it. A call
-- returns (ok), throws (throw), or is stuck: out of bounds of a byte buffer, or out of fuel, which are
-- faults of the program or of the model. A number cast to an enum is kept, as by Microsoft's compiler,
-- which the code needs (std::exception of a text) and which has every plain enum in an int; C++17
-- leaves a number that is out of the enum's range undefined. A file that opens for output takes all
-- that is written, and one that does not is left as it is.
--
-- Bounds and fuel: `unsigned int` wraps at 2 ^ 32. The write loop has one round, and for a message
-- (44 + length) / 1024 + 1, which is every partition. The read loop has 2 ^ 22 + 1 rounds, more than
-- the partitions of a payload of 2 ^ 32 - 1 bytes. The message parser has one round for each byte of the
-- payload and one more; a message has at least 25 bytes. The server's receive loop has 2 ^ 23 rounds:
-- each but the last brings at least 980 of at most 2 ^ 32 bytes.
--
-- Not modelled: the sockets of the server (what its recv returns and whether a send raises are
-- parameters; a recv that raises is left out), in its port file characters that are not ASCII and
-- numbers of more than 4300 digits, the column LastSeen, the limits of SQLite but for the parameters of
-- a statement, the output to the console but for the text of each response, destructors and the freeing
-- of memory, and the time that a call takes. boost::asio is the record Connection, with any bytes read
-- and any exception thrown; a Python str is its UTF-8 encoding; a table is the list of its rows in the
-- order of insertion.
pub mod Base
pub mod Common
pub mod Codec
pub mod ServerRequest
pub mod ServerResponse
pub mod TcpNetworkClientManager
pub mod ClientInMemoryDataManager
pub mod Environment
pub mod Base64Wrapper
pub mod RsaWrapper
pub mod World
pub mod UserCommand
pub mod UserCommandConsoleParser
pub mod InfoFiles
pub mod MessageUClient
pub mod EndToEnd
pub mod Server
pub mod Conversation
pub mod Tests
