-- ===== src/Filter.antt =====
-- The filters of a capture: wildcards and content types of handler/text_utils.go, the integer sets
-- of util/intset.go and the options of handler/option.go.
pub mod Wildcard
pub mod IntSet
pub mod Options
pub mod Mime
mod Tests
