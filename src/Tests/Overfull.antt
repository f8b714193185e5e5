-- ===== src/Tests/Overfull.antt =====
-- A client pulls two messages from a database that takes one parameter in a statement
-- (server/message_u_server.py, server/storage_handler.py).
use instant_messaging_progra.Base.{ℕ, [], ◌∷◌, Bytes, replicate}
use instant_messaging_progra.Common.{client_version}
use instant_messaging_progra.Codec.ClientId.{hex_id}
use instant_messaging_progra.ServerRequest.{server_request_base, pull_messages_code}
use instant_messaging_progra.ServerRequest.Format.{header_bytes}
use instant_messaging_progra.Server.Responses.{Message}
use instant_messaging_progra.Server.Storage.{Database}
use instant_messaging_progra.Tests.Wire.{id_bytes}

abbrev wire : Bytes
wire =
    header_bytes id_bytes
      (server_request_base (hex_id id_bytes) client_version pull_messages_code 0)

abbrev note : ℕ → Message
note id = record {
  message_id = id;
  to_client = id_bytes;
  from_client = id_bytes;
  message_type = 2;
  message_content = [];
}

abbrev narrow : Database
narrow = record {
  clients = record { id = id_bytes; user_name = 97 ∷ []; public_key = replicate 160 1 } ∷ [];
  messages = note 1 ∷ note 2 ∷ [];
  sequence = 2;
  variable_limit = 1;
}
