-- ===== src/App/Readers.antt =====
-- The commands that only look.
use localclaw.Common.{String}
use localclaw.App.Doctor.{doctor}
use localclaw.App.Doctor.Calls.{doctor-Asks}
use localclaw.App.Host.{Host}
use localclaw.App.Kinds.{Asks}
use localclaw.App.Lifecycle.Status.{status}
use localclaw.App.Lifecycle.Status.Calls.{status-Asks}
use localclaw.App.Secrets.Commands.{list_secrets, describe}
use localclaw.App.Secrets.Commands.Calls.{list_secrets-Asks, describe-Asks}
use localclaw.App.Trace.{Only}
use localclaw.Domain.Finding.{Finding}

module _ {S : Type 0} ⦃H : Host S⦄ where
  -- Whatever the ports answer, `lclaw doctor`, `lclaw status`, `lclaw secrets list` and `lclaw secrets
  -- describe` change nothing on the host and read no secret value.
  pub readers-Asks :
      (shown : Finding → String) (dir name : String)
      → Only {S = S} Asks (doctor shown dir)
        × (Only {S = S} Asks (status dir)
            × (Only {S = S} Asks (list_secrets dir) × Only {S = S} Asks (describe dir name)))
  readers-Asks shown dir name =
      (doctor-Asks shown dir, (status-Asks dir, (list_secrets-Asks dir, describe-Asks dir name)))
