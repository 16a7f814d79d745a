-- ===== src/Service.antt =====
-- rust/solvency-service/src: the HTTP service that holds the organisations' keys and publishes for
-- them, without its sockets.
pub mod Keystore
pub mod Intake
pub mod Publish
pub mod Custody
pub mod App
