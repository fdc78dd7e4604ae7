-- ===== src/Tests.antt =====
-- The properties at concrete inputs: sample data, and one example for each.
mod Codec
mod Demos
mod Devices
mod Durables
mod Data
mod Sessions
mod Agents
mod Coordinators
mod Drains
mod Parts
mod Disk
mod Files
mod Storages
mod Secrets
mod Gpios
