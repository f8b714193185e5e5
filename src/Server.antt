-- ===== src/Server.antt =====
-- The server (server/, in Python), as far as it is about bytes: what it makes of a request
-- (server/request_parser.py, server/request.py) and the loop that receives one
-- (server/message_u_server.py).
pub mod Struct
pub mod Requests
pub mod Receiving
pub mod Content
pub mod Headers
pub mod Understood
pub mod Parsing
pub mod FromClient
pub mod Outcomes
pub mod Responses
pub mod Storage
pub mod Manager
pub mod Sessions
pub mod Serving
pub mod Answered
pub mod Reading
pub mod Exchange
pub mod Mailbox
pub mod Overfull
pub mod Soundness
pub mod Events
pub mod Safety
pub mod ShortRead
