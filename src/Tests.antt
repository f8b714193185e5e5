-- ===== src/Tests.antt =====
-- The theorems applied at concrete requests, responses and clients. The code under test is that of
-- client/, with a connection and a cipher that are as simple as can be.
mod Wire
mod Clients
mod Ciphers
mod Loop
mod Exchange
mod Delivery
mod Answer
mod Unbroken
mod Conversation
mod Keys
mod Events
mod Overfull
