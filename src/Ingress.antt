-- ===== src/Ingress.antt =====
-- internal/ingress: the request, its fingerprint, and the coalescing of requests in flight.
pub mod Inflight
pub mod Request
