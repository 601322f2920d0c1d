-- ===== src/Dispatcher.antt =====
-- source/dispatcher.h, source/dispatcher.cc: the base class of the dispatchers, which keeps the
-- epoll payload of each file descriptor and the queue of descriptors that wait for `on_unregister`.
mod Defs
pub mod Payloads
pub mod Deferred
mod Tests
unfoldable pub use Defs.{get_payload, register_fd, unregister_fd, cleanup_fds, flush_deferred}
pub use Defs.{Epoll, EpollPayload, DispatcherBase, empty_base, Op, register, unregister, flush}
unfoldable pub use Defs.{step, run}
