-- ===== src/Examples.antt =====
-- The theorems at concrete inputs, and tests of the definitions.
mod Flash
mod Text
mod Groups
mod AuthFlash
mod Auth
mod Logs
mod Rows
mod Hub
mod Api
mod Bridge
mod System
mod Wifi
mod Scripts
