-- ===== src/Example.antt =====
-- The extension modules of examples/binding_consumer/bindingdemo that build on the substrate.
pub mod Refused
pub mod Guarded
pub mod Computes
pub mod Widget
pub mod Hashable
pub mod Described
pub mod Overflow
pub mod Vec
pub mod Functions
pub mod Handle
pub mod Consumers
pub mod Demo
mod Tests
