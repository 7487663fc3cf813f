-- ===== src/Processor/Tests.antt =====
-- The theorems about internal/reconcile/summarize/processor.go at concrete errors.
use source_controller.Common.{String, Option, some}
use source_controller.Object.Example.{Content}

abbrev annotation : Content → Option String
annotation o = some "now"
