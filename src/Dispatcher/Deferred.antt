-- ===== src/Dispatcher/Deferred.antt =====
-- When a descriptor that was unregistered is handed to `on_unregister`.
use aelkey.Base.{ℤ, List, if◌then◌else◌, int_key}
use aelkey.Dispatcher.Defs.{DispatcherBase}

-- The queue that the next flush hands over, and the one that waits for the flush after it.
abbrev pub previous : DispatcherBase → List ℤ
previous b = if b.odd then b.deferred_even else b.deferred_odd

abbrev pub current : DispatcherBase → List ℤ
current b = if b.odd then b.deferred_odd else b.deferred_even
