-- ===== src/Binding.antt =====
-- include/sciforge/binding/: the substrate that binds C++ functions and types to CPython. CPython's
-- own functions are parameters (`Python`) of what calls them.
pub mod Python
pub mod Error
pub mod Convention
pub mod Convert
pub mod Dispatch
pub mod Keywords
pub mod Class
pub mod Module
pub mod Gil
pub mod Fixtures
mod Tests
