-- ===== src/Server/Overfull.antt =====
-- A session of server/message_u_server.py that delivers more messages than a DELETE of
-- server/storage_handler.py takes parameters.
