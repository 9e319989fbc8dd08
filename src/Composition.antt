-- ===== src/Composition.antt =====
-- How src/route and src/icrypto work together: a token that the server issues in the hands of its
-- middleware, and a request through the middleware and the handler behind it.
pub mod Issued
pub mod Guarded
pub mod Tailing
pub mod Managed
pub mod BeamTest
pub mod TenantTest
