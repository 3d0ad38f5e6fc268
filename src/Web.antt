-- ===== src/Web.antt =====
-- errors/error.go (Errors), response/response.go (Response) and middleware/auth.go (Auth).
-- Gate: which requests the handler of Auth lets through; Session: the tokens of util/jwt.go pass it.
pub mod Errors
pub mod Response
pub mod Auth
mod Info
mod Gate
mod Session
mod Tests
