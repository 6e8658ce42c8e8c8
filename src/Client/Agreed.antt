-- ===== src/Client/Agreed.antt =====
-- The synchronous and the asynchronous backend of src/ssrfguard/httpx.py, where no attempt succeeds.
use ssrfguard.Base.{ℕ, Bool, ◌&&◌, List, [], ◌∷◌, ◌++◌, take, Result, ok, raise, if◌then◌else◌}
use ssrfguard.Errors.{Exception}
use ssrfguard.Observer.Report.{Observer}
use ssrfguard.Policy.Config.{Policy}
use ssrfguard.Resolve.Defs.{Address}
use ssrfguard.Connect.Kernel.{Kernel}
use ssrfguard.Connect.Defs.{is_os_error, is_timeout, Ending, passed_on, all_failed, Failure}
use ssrfguard.Client.Httpx.{BackendError, httpcore_failure, Backend, Dial}
use ssrfguard.Client.Failover.{Step, reaching, AsyncBackend}

-- The end of a loop in which each address fails as it is fated to.
failing : (Address → Exception) → List Address → List (Address × Exception) → Bool → Ending
failing fate [] failures only = all_failed failures only
failing fate (a ∷ more) failures only =
    let rest = failing fate more (failures ++ (a, fate a) ∷ []) (only && is_timeout (fate a)) in
    if is_os_error (fate a) then rest else passed_on (fate a)

abbrev reach_of : Dial → Address → Step
reach_of d a = reaching a.ip a.sockaddr.port d.local_address d.timeout

-- What a synchronous backend makes of the end of `connect`.
abbrev translated : Result Failure ℕ → Result BackendError ℕ
translated (ok sock) = ok sock
translated (raise f) = raise (httpcore_failure f)

module _ (b : Backend) (async : AsyncBackend) (d : Dial) (fate : Address → Exception) (a : Address)
    (more : List Address) where
  abbrev tried : Policy → List Address
  tried p = take p.max_connection_attempts (a ∷ more)
