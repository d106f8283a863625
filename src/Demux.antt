-- ===== src/Demux.antt =====
-- dvb/drivers/media/dvb/dvb-core/dvb_demux.c: the software demultiplexer. A transport stream comes in
-- as bytes (Demux/Stream), is cut into packets of 188 bytes, and each packet goes to the feeds of its
-- PID (Demux/Dispatch), which pass on packets or payloads, or put sections together (Demux/Section)
-- and filter them (Demux/Filter). Feeds and filters are allocated, set, started, stopped and released
-- by the calls of Demux/TsFeed and Demux/SecFeed; Demux/Registry has the demultiplexers, users and front-ends.
pub mod Types
pub mod Packet
pub mod Filter
pub mod Section
pub mod Dispatch
pub mod Reassembly
pub mod Calls
pub mod TsFeed
pub mod SecFeed
pub mod Registry
pub mod Search
pub mod Mutex
pub mod Lifecycle
pub mod Ownership
pub mod Stream
mod Tests
