-- ===== src/Codec.antt =====
-- The fields of requests and responses: the static helpers of ServerRequestBase
-- (client/ServerRequest.cpp) and of ServerResponseBase (client/ServerResponse.cpp).
pub mod Number
pub mod ClientId
