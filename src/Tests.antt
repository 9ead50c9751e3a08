-- ===== src/Tests.antt =====
-- The development on concrete inputs: a small instance of the interfaces, and the theorems run on it.
mod Orders
mod Instance
mod Texts
mod Identities
mod Stores
mod Labels
mod Listings
mod Engines
mod Schedules
mod Reports
mod Metadata
