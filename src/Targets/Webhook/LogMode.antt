-- ===== src/Targets/Webhook/LogMode.antt =====
-- targets/webhook/webhook.go: the type LogResponse and its default.
use notifykit.Text.{Text}

-- The string type LogResponse, by its constants; `unset` is the empty string.
pub data LogResponse : Type 0 where
  unset : LogResponse
  nothing : LogResponse
  summary : LogResponse
  body : LogResponse
  full : LogResponse
  unknown : Text → LogResponse

-- cmp.Or(mode, LogResponseSummary)
abbrev pub or_summary_mode : LogResponse → LogResponse
or_summary_mode LogResponse.unset = LogResponse.summary
or_summary_mode mode = mode
