-- ===== src/Examples.antt =====
-- The examples: the library run on concrete inputs, the theorems applied there.
pub mod Crypto
pub mod Trees
pub mod Encodings
pub mod Rejections
pub mod Reports
pub mod Statements
pub mod Publishing
pub mod Deliveries
pub mod Groups
pub mod Profiles
pub mod Keys
pub mod Requests
pub mod Holdings
pub mod Commands
pub mod Sweeps
pub mod Forests
pub mod Services
