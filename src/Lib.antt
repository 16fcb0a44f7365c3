-- ===== src/Lib.antt =====
-- The WAPI desktop runtime: the host that runs a WebAssembly guest and gives it memory, handles, events
-- and asynchronous operations.
--
-- The guest calls imports, each a C function `cb_*` that reads its arguments from the guest's linear
-- memory, works on the one global state `g_rt`, and returns an `int32_t` or `int64_t`. Here each import is
-- a function of the part of the state that it uses, and returns its result and the new state.
--
-- The parts, and the files that model them:
-- - Abi: result codes (include/wapi/wapi.h). A 32-bit integer is its bit pattern, a number below 2 ^ 32;
--   sums that C takes in 32 or 64 bits are written with `% 2 ^ 32` and `% 2 ^ 64`.
-- - Guest: the checked accesses to guest memory (`wapi_wasm_*` in runtime/desktop/src/wapi_host.h). The
--   bytes are a function of the address, also beyond the memory's size, so that a write past the end shows.
-- - Handles, EventQueue: the handle table and the ring of events (same file). A union of the handle's
--   data is a type parameter. EventQueue.Fifo is what the ring promises.
-- - Memory: the bump allocator of guest memory (runtime/desktop/src/wapi_host_memory.c).
--   `wasmtime_memory_grow` is a parameter; that a growth adds whole pages and keeps the bytes is the
--   hypothesis `GrowsByPages`.
-- - Shared: the pool through which modules exchange data, and Modules: the cache of module files, the
--   packed function handles, and the loading, joining and releasing of modules (Modules.Registry, its runs
--   in Modules.Registry.Runs), all in runtime/desktop/src/wapi_host_module.c. Files, hashes and wasmtime are the parameter Loader.
-- - Runtime: the state that the I/O bridge works on, and the record Host of what it calls: the platform
--   layer (wapi_plat.h), the C library, the handlers of files that are not modelled. Nothing is assumed of
--   these but `FreadBounded`, that `fread` stores no more than it is asked for, where it is named.
-- - Io: the bridge itself (runtime/desktop/src/wapi_host_io.c). Io.Opcodes and Io.Submit are the opcodes, the
--   switch of `dispatch` and `cb_submit`; Io.Completion is `push_completion_event`; Io.Timers are
--   the timeouts and `cb_cancel`; Io.Files and Io.Roles are the other handlers of that file; Io.Poll is
--   `cb_poll`, `cb_wait` and `cb_flush`. Submission and timeouts put events into the queue of EventQueue,
--   from which `poll` and `wait` write them to guest memory through Guest.
-- - Caps, Namespaces: the capability queries and the namespaces of the same file.
-- - Fs: the file system (runtime/desktop/src/wapi_host_fs.c, with init_stdio_handles and add_preopen of
--   main.c). Fs.Paths is `resolve_path` and the pre-opened directories, Fs.Opening, Fs.Streams, Fs.Stats and
--   Fs.Listing are the imports, Fs.Sandbox is which paths they reach. The C library is the record CLib; of
--   it, `FseekLaws`, that a successful fseek sets the position, is assumed where it is named. Where C code
--   is chosen by the system, it is the one for Windows.
-- - Kv: the key-value storage (runtime/desktop/src/wapi_host_kvstorage.c), over the same CLib; `FileLaws` says
--   what it relies on of files, among it that a file was flushed when it was closed.
-- - Gamepads: the database of gamepad mappings (runtime/desktop/src/wapi_host_gamepaddb.c): Gamepads.Lines is
--   its parser, Gamepads.Table the growth and the loading, the module itself lookup and decoding.
-- - Devices: the entries of the database of displays (runtime/desktop/src/wapi_host_devicedb.c), their merge,
--   the growth of the table and the lookup. The capacity is an int that wraps around; the doubling
--   loop runs on as many rounds as entries are needed, which is enough for up to 2 ^ 30 of them.
-- - Input: the input devices and their events (runtime/desktop/src/wapi_host_input.c). Input.Translate is
--   `wapi_host_translate_event` and the pump, Input.Layout the bytes of its events, Input.Devices the handles
--   of devices and the grant of roles, Input.Ime the store of IME texts (Input.Ime.Log its specification as a
--   log), and Input.Pads, Input.Pointing and Input.Hid are the imports. The platform layer is the record
--   Platform; `Waiting` says what the pump relies on of it. Input.Runs are the runs of this code.
-- - Base: shared names, searches in arrays, bytes and bits. Tests: concrete runs.
--
-- Loops over an index run on the number of rounds left, which is the bound of the C loop itself: 4096
-- handles, 64 namespaces, 1024 blocks, the count of a queue. So no round is cut off. The scan for the 0 at
-- the end of a string has no bound in C; it runs to the end of the guest's memory, and a run past it is a
-- result of its own (`Fallible`). The guest that reads a
-- directory in Fs.Listing.Client runs on the number of pages; one more than there are entries is enough. The
-- pump of platform events runs on the number of batches; one more than there are events that wait is enough.
--
-- Not modelled: what lies behind the platform layer, the network, graphics, dialogs and cryptography, which
-- are calls of other libraries; wasmtime; the calls of loaded modules; the
-- text format of the device database; the imports for menus and the tray; the other runtimes (runtime/sdl,
-- runtime/plugin, runtime/browser).
pub mod Base
pub mod Abi
pub mod Devices
pub mod Fs
pub mod Input
pub mod Gamepads
pub mod Guest
pub mod Handles
pub mod EventQueue
pub mod Kv
pub mod Memory
pub mod Shared
pub mod Runtime
pub mod Io
pub mod Caps
pub mod Namespaces
pub mod Modules
pub mod Tests
