-- ===== src/Http.antt =====
-- internal/resttooling: what stands between the clients of REST services and the network. Errors
-- of one request, the strategies that decide whether it is sent again, and the loop that sends it.
mod Tests
pub mod Timeout
pub mod Network
pub mod Response
pub mod Body
pub mod Nesting
pub mod RoundTrip
