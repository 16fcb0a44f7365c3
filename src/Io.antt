-- ===== src/Io.antt =====
-- runtime/desktop/src/wapi_host_io.c: the bridge through which a guest submits operations and takes
-- events, in one module for each group of its functions.
pub mod Opcodes
pub mod Completion
pub mod Timers
pub mod Files
pub mod Roles
pub mod Submit
pub mod Poll
