-- ===== src/Examples.antt =====
-- The theorems at concrete inputs, and runs of the code on small machines.
mod Phy
mod Params
mod Radio
mod Scan
mod Host
mod Module
mod Slots
mod Probes
