-- ===== src/Tests/Common.antt =====
-- A context, timers, a retry configuration and texts of errors for the tests.
use notifykit.Base.{ℕ, pos, true, false, none, some}
use notifykit.Text.{bytes}
use notifykit.Text.Strings.{join_texts}
use notifykit.Notify.Error.Texts.{Formats}
use notifykit.Notify.Backoff.{RetryConfig}
use notifykit.Notify.Policy.{default_retry_policy}
use notifykit.Notify.Retry.{Runtime}

-- A world is the number of calls so far; the context is live and each timer fires.
abbrev pub live_runtime : Runtime ℕ
live_runtime = record { ctx_err = λ w. none; await = λ d w. (true, w); random = λ w n. pos 0 }

abbrev pub retrying : RetryConfig
retrying = record {
  count = pos 2;
  backoff = pos 100;
  max_backoff = pos 250;
  jitter = false;
  policy = some default_retry_policy;
}

abbrev pub plain_formats : Formats
plain_formats = record {
  sprintf = λ format args. join_texts args (bytes " ");
  lines = λ texts. join_texts texts (bytes "/");
  canceled_text = bytes "context canceled";
  deadline_text = bytes "context deadline exceeded";
  duration = λ d. bytes "1s";
}
