-- ===== src/Conversation.antt =====
-- Two clients and the server between them: one round of the loop of client/MessageUClient.cpp,
-- connected with a session of server/message_u_server.py, and the database that the session leaves
-- for the next client.
pub mod Steps
pub mod Sending
pub mod Pulling
pub mod Rounds
pub mod Texts
pub mod Keys
use instant_messaging_progra.Base.{
  ℕ, List, [], ◌++◌, ◌∷◌, Bytes, Bool, true, Result, ok, throw, stuck,
}
use instant_messaging_progra.Environment.{Environment}
use instant_messaging_progra.ServerRequest.{ServerRequest}
use instant_messaging_progra.ServerRequest.Format.{cleared}
use instant_messaging_progra.ServerResponse.{Allocator}
use instant_messaging_progra.TcpNetworkClientManager.{write_loop, write_fuel}
use instant_messaging_progra.MessageUClient.{Client, Surroundings}
use instant_messaging_progra.Server.Storage.{Database}
use instant_messaging_progra.Server.Sessions.{session}
use instant_messaging_progra.Server.Exchange.{connected}
use instant_messaging_progra.World.{World}

-- A client whose connections lead to the server with this database.
abbrev pub online : Environment → Allocator → ℕ → Bytes → Database → Surroundings
online env alloc rounds fresh db = record {
  env = env;
  alloc = alloc;
  connections = λ n. connected rounds fresh db;
}

-- A registered client between two rounds.
abbrev pub waiting_client : World → List Bytes → List Bytes → ℕ → Client
waiting_client w input shown requests = record {
  world = w;
  is_user_registered = true;
  input = input;
  shown = shown;
  requests = requests;
}

abbrev left_by : ℕ → Bytes → Database → Result (List Bytes) → Database
left_by rounds fresh db (ok sent) = (session rounds fresh sent db).1
left_by rounds fresh db (throw e) = db
left_by rounds fresh db (stuck f) = db

-- The database after the session that received what HandleRequest sends for this request.
unfoldable pub database_after : ℕ → Bytes → Database → ServerRequest → Database
database_after rounds fresh db request =
    left_by rounds fresh db
      (write_loop (connected rounds fresh db) (write_fuel request) request (cleared []) [])
