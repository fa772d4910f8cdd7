-- ===== src/App.antt =====
-- conn/IAppGroup.cpp, client/ClientGroup.cpp, server/SubGroup.cpp and callbacks/ConnReset.cpp: the
-- groups of conversations on the two sides.
pub mod Index
pub mod Head
pub mod Client
pub mod ConvKey
pub mod Server
pub mod Session
pub mod Reset
pub mod Input
pub mod Sides
pub mod ServerGroup
