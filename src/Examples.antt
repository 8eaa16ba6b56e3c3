-- ===== src/Examples.antt =====
-- The theorems at concrete inputs.
mod Sessions
mod Traffic
mod Panel
mod Totals
mod Accounts
mod Options
mod Editing
mod Launching
mod Linking
mod Proxies
mod Depleting
mod Subscribing
