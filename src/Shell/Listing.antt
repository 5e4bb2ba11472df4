-- ===== src/Shell/Listing.antt =====
-- `ls` after `touch`.
use mathlib.Core.Option
use system.Common.{List}
use system.Kfs.{Kfs}
