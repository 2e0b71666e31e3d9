-- ===== src/Encoder.antt =====
-- SiameseEncoder.h and SiameseEncoder.cpp: the encoder's side of acknowledgements.
pub mod Losses
pub mod Reading
pub mod Window
pub mod Retransmit
mod Tests
