-- ===== src/Runtime/Published/Accepted.antt =====
-- What the checks of the published evidence make sure of.
use mathlib.Core.List.Memᴰ
use telconet_sentinel.Common.{List, Memᴰ}
