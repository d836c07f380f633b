-- ===== src/UsbSerial.antt =====
-- The USB serial driver of firmware/kernel/src/drivers/usb_serial.rs.
pub mod Accumulator
pub mod External
pub mod State
pub mod Arrays
pub mod Ports
pub mod Send
pub mod Receive
pub mod Steps
pub mod Device
pub mod Isr
pub mod Stand
mod Tests
