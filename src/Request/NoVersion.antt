-- ===== src/Request/NoVersion.antt =====
-- A request line that ends behind its address.
