-- ===== src/Examples.antt =====
-- Runs at concrete inputs: a small directory server, and an application of each theorem of the list
-- in Lib.antt.
mod World
mod Texts
mod Lists
mod Managers
mod Servers
mod Rests
mod Hashes
mod Numbers
mod Numberings
mod Accounts
mod Setups
mod Daemons
mod Gateways
