-- ===== src/Controllers.antt =====
-- internal/app/machined/pkg/controllers: the controllers of the machine.
pub mod Services
pub mod Lookup
pub mod Watching
mod Tests
