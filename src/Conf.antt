-- ===== src/Conf.antt =====
-- The configuration: bean/RConfig.cpp, and its lists of ports, util/RPortList.cpp.
pub mod PortList
pub mod RConfig
pub mod Filter
