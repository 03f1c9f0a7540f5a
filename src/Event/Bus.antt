-- ===== src/Event/Bus.antt =====
-- internal/event/bus.go: sequenced publication, the bounded replay window and the subscribers. One
-- call of a method runs under the bus's mutex, so each is a function on the state.
pub mod Defs
pub mod Window
pub mod Rising
pub mod Streams
pub mod Replay
