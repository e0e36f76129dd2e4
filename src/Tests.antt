-- ===== src/Tests.antt =====
-- The theorems applied at concrete inputs.
mod Toy
mod World
mod Crypto
mod Server
mod Files
mod Memory
mod Client
mod Procargs
mod Keyring
mod Worker
mod Sections
mod Delivery
mod Pack
mod Race
mod Daemon
mod Keychain
mod Launch
mod Cli
mod Served
mod Lifecycle
mod Promise
