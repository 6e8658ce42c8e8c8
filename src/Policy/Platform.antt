-- ===== src/Policy/Platform.antt =====
-- What src/ssrfguard/_policy.py asks of `urllib.parse` and of the `idna` codec, which differ
-- between releases of CPython: parameters of the model.
use ssrfguard.Base.{ℕ, Option, Text}

-- The attributes of a `SplitResult` that are read. `hostname` and `port` are properties that may
-- raise `ValueError`: `none` outside stands for that.
pub record SplitResult : Type 0 where
  pub scheme : Text
  pub username : Option Text
  pub password : Option Text
  pub hostname : Option (Option Text)
  pub port : Option (Option ℕ)

pub record Platform : Type 0 where
  -- `urlsplit(url)`; `none` where it raises `ValueError`
  pub urlsplit : Text → Option SplitResult
  -- `host.encode("idna").decode("ascii")`; `none` where it raises `ValueError`
  pub idna : Text → Option Text
