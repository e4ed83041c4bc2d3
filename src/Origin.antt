-- ===== src/Origin.antt =====
-- pkg/origin: the scriptable server behind the proxy under test.
pub mod Store
pub mod Etags
pub mod Respond
pub mod Serve
