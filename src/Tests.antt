-- ===== src/Tests.antt =====
-- A concrete environment, and the theorems at concrete inputs.
mod Tables
mod Disk
mod Codec
mod Store
mod World
mod Facts
mod Witness
mod Parts
mod Others
mod Web
mod Auth
mod Serving
mod Flights
mod Whole
mod Network
