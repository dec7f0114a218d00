-- ===== src/ServerCore.antt =====
-- ActorModelServer/ActorModelServer/ServerCore.h and ServerCore.cpp. Its receive path is in
-- RecvPath, its maps of sessions and of other actors in Registry, its threads in Threads.
pub mod RecvPath
pub mod Registry
pub mod Threads
pub mod Timers
pub mod Loops
pub mod Startup
