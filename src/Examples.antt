-- ===== src/Examples.antt =====
-- Concrete runs of a cluster of three, by the part that they are about.
mod Data
mod Logs
mod Votes
mod Elections
mod Installs
mod Clients
mod Commands
mod Drivers
mod Heartbeats
mod Polls
mod Appends
mod Commits
mod Applies
mod Replications
