-- ===== src/External.antt =====
-- The third-party code that the program calls, as records of operations with the documented
-- behaviour that the proofs rely on: a QUIC connection of quiche, and channels of tokio.
pub mod Quiche
pub mod Channel
pub mod Php
pub mod Std
pub mod Io
pub mod Os
pub mod Net
