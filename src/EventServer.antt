-- ===== src/EventServer.antt =====
-- The event-driven server of week47_event_driven_and_scalable_i_o/evserver.c: what it does with one
-- connection, and the table of connections that its event loop keeps. Sockets are parameters.
pub mod Connection
pub mod Server
mod Tests
