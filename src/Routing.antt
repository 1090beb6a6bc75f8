-- ===== src/Routing.antt =====
-- The route planning of app/api/core/routing.
pub mod Surface
pub mod Search
pub mod Heap
pub mod Ways
pub mod Invariant
pub mod Improving
pub mod Relaxing
pub mod Grid
pub mod Turns
pub mod Loop
pub mod Termination
pub mod Rate
pub mod Heuristic
pub mod Optimal
pub mod Routes
pub mod Tours
pub mod Overlaps
pub mod Alternatives
pub mod Examples
