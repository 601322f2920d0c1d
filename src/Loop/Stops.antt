-- ===== src/Loop/Stops.antt =====
-- When the loop ends, and what it has handled by then.
use aelkey.Device.App.{App}
