-- ===== src/App.antt =====
-- app/: what the command line program keeps beside the HAL: the buffers by their ids, the encoder that
-- processes outputs, and the writer of results.
pub mod Jpeg
pub mod Pixels
pub mod Buffers
pub mod Encoder
pub mod Writer
pub mod Written
pub mod Cli
mod Tests
