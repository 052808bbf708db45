-- ===== src/Examples.antt =====
-- The theorems at concrete inputs: a device that listens, one that answers, one that trains the
-- link, the clocks of the test bench and a small memory.
mod Words
mod Frames
mod Sectors
mod Handshakes
mod Links
mod Clocks
mod Memories
mod Disks
mod Buses
mod Benches
mod Sessions
