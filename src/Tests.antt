-- ===== src/Tests.antt =====
-- The theorems at concrete inputs, one module for each part of the program.
mod AgentTests
mod CacheTests
mod ChannelTests
mod ConnectionTests
mod WindowTests
mod RecordTests
mod StreamTests
mod UtilTests
mod InputsTests
mod PortForwardTests
mod MainTests
mod PipeTests
mod PlaybackTests
