-- ===== src/Server/Sessions.antt =====
-- MessageUServer._handle_session (server/message_u_server.py): a request is received, handled
-- and answered.
use instant_messaging_progra.Base.{
  ℕ, zero, suc, ◌+◌, ◌/◌, List, [], ◌∷◌, Bytes, length, take, drop, none,
}
use instant_messaging_progra.Base.Exec.{Exec, pure, lift, try_catch, ◌>>=◌, ◌>>◌}
use instant_messaging_progra.Server.Requests.{partition_size}
use instant_messaging_progra.Server.Storage.{Database}
use instant_messaging_progra.Server.Manager.{server_version, handle_request, after_send_process}
use instant_messaging_progra.Server.Receiving.{receive}
use instant_messaging_progra.Server.Responses.{
  ResponseHandler, general_server_error_handler, create_response,
}

-- The slices that start at every multiple of the partition's size.
unfoldable pub slices : ℕ → Bytes → List Bytes
slices zero buffer = []
slices (suc n) buffer = take partition_size buffer ∷ slices n (drop partition_size buffer)

unfoldable pub sent_partitions : Bytes → List Bytes
sent_partitions buffer = slices ((length buffer + 1023) / partition_size) buffer

-- A request, or the error in its place: what the database kept of a failed request stays.
unfoldable pub respond : ℕ → Bytes → List Bytes → Exec Database ResponseHandler
respond rounds fresh input =
    try_catch (lift (receive rounds input none none) >>= handle_request fresh)
      (pure (general_server_error_handler server_version))

-- What the session sends for what it receives, in so many rounds. Where the answer cannot be packed,
-- nothing is sent; an exception after the sending is only printed.
unfoldable pub session : ℕ → Bytes → List Bytes → Exec Database (List Bytes)
session rounds fresh input = do
  handler ← respond rounds fresh input
  response ← lift (create_response handler)
  try_catch (after_send_process handler) (pure tt)
  pure (sent_partitions response)
