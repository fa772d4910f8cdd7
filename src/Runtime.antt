-- ===== src/Runtime.antt =====
-- What runs on the loop: messages and tasks with a time (util/Handler.cpp), observers
-- (src/service/IService.cpp), timers (src/service/TimerService.cpp) and the watch on the network
-- (src/service/RouteService.cpp).
pub mod Expiry
pub mod Handler
pub mod Service
pub mod Timers
pub mod Route
