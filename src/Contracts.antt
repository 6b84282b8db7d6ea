-- ===== src/Contracts.antt =====
-- crates/contracts/src/lib.rs: the wire and event types that every other part shares.
-- A `Uuid` is its 128-bit number: the hyphenated lowercase text of a UUID is injective and has the
-- order of the number. An `OffsetDateTime` is an instant and the offset in which it is written;
-- comparisons read the instant alone.
mod Json
mod Event
mod Api
unfoldable pub use Json.*
unfoldable pub use Event.*
unfoldable pub use Api.*
