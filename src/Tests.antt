-- ===== src/Tests.antt =====
-- Every theorem that has hypotheses or parameters, applied to a concrete run.
mod Fixtures
mod Evidence
mod Mirror
mod Lures
mod Firewalls
mod Dispatches
mod Messages
mod Threats
mod Rules
mod Access
mod Unlocking
mod Histories
mod Network
mod Sessions
mod Healing
mod Backups
mod Scans
mod Sensing
mod Swarm
mod Chaotic
