-- ===== src/Proto.antt =====
-- proto.h, and the sides of it in lib.c and srv.c that encode and decode messages. A datagram is the
-- list of its bytes. The 16-bit fields are little-endian, as on the program's usual hosts; both ends
-- run on one host, and nothing else depends on it.
pub mod Request
pub mod Reply
pub mod Step
