-- ===== src/Platform.antt =====
-- What the operator calls and does not implement: the API server behind `client.Client`, the event
-- recorder, the clock, the environment, and the helpers of apimachinery and controllerutil.
--
-- The outside world is a `Client`: it answers each call as a function of the calls and answers
-- before it, so a statement over every client is one over every behaviour of the API server, of the
-- clock and of the other writers between two calls. An action returns its result and the longer
-- trace.
pub mod Replies
pub mod Calls
pub mod World
pub mod Helpers
pub mod Actions
pub mod Requests
pub mod Only
pub mod Ends
pub mod Server
pub use Replies.*
pub use Calls.{Call, Trace, EventType, normal, warning}
pub use World.*
pub use Helpers.*
unfoldable pub use Actions.*
pub use Requests.*
