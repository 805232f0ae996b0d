-- ===== src/Gateway.antt =====
-- src/web/websocket.c and src/web/gateway.c: the connection to Discord. What is received comes as events of
-- libwebsockets; what is sent, and the calls of libraries, are a log. The file's child `Ops` has the operations.
pub mod Ops
pub mod Receive
pub mod Sessions
pub mod Resuming
pub mod Fragments
pub mod Closing
pub mod Loop
mod Tests
