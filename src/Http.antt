-- ===== src/Http.antt =====
-- core/http: the connections the program makes.
pub mod Proxy
