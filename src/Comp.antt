-- ===== src/Comp.antt =====
-- internal/comp: turning the signups of an event into a composition.
pub mod Store
pub mod Spec
pub mod Board
pub mod Types
pub mod Resolve
pub mod Roles
pub mod Rank
pub mod Fill
pub mod Assign
pub mod Advise
pub mod Manual
mod Examples
