-- ===== src/Examples.antt =====
-- Concrete inputs: small services in place of the libraries, and runs of the code on them.
mod World
mod Keys
mod Wallets
mod Accounts
mod Clients
mod Sessions
mod Machines
