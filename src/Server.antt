-- ===== src/Server.antt =====
-- server/src/server: the registry of endpoints, the Swagger document and the wrapper around handlers,
-- and the program that starts the server.
mod Tests
pub mod Json
pub mod Swagger
pub mod Registry
pub mod Program
