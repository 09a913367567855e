-- ===== src/Interleaving.antt =====
-- The handlers call by call. A goroutine of the server runs a handler; between two of its calls of a
-- service or of the client store the calls of other goroutines come.
pub mod Program
pub mod Frames
pub mod Handlers
pub mod Agreement
pub mod Connections
pub mod Sequence
pub mod Threads
pub mod Safe
pub mod Serving
pub mod Admitting
pub mod Ownership
pub mod OneStep
pub mod Statuses
pub mod Undisturbed
pub mod Race
