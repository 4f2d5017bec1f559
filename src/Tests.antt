-- ===== src/Tests.antt =====
-- Runs on concrete inputs, and each theorem with hypotheses at an input that meets them.
mod Vdf
mod Codecs
mod Crypting
mod Linking
mod Pumping
mod Cleaning
mod Running
mod Alerting
mod Saving
mod Listing
mod Framed
mod Registered
mod Guarding
mod Signing
