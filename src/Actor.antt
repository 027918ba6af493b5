-- ===== src/Actor.antt =====
-- relay-client/src/actor.rs: the actor's state, its messages, and what its code does beside
-- changing the state. The handlers are in Actor/Handler, the connection in Actor/Session, the
-- reconnecting loop in Actor/Run.
pub mod Defs
pub mod Monad
pub mod Handler
pub mod Session
pub mod Keeps
pub mod Pending
pub mod Payload
pub mod Run
pub mod Spec
