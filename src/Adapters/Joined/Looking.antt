-- ===== src/Adapters/Joined/Looking.antt =====
-- The commands that only look, over the adapters.
use localclaw.Common.{String, []}
use localclaw.App.Doctor.{doctor}
use localclaw.App.Host.{Host}
use localclaw.App.Lifecycle.Status.{status}
use localclaw.App.Readers.{readers-Asks}
use localclaw.App.Secrets.Commands.{list_secrets, describe}
use localclaw.App.Trace.{Calls}
use localclaw.Domain.Finding.{Finding}
use localclaw.Adapters.Joined.{joined}
use localclaw.Adapters.Joined.Beneath.{beneath-Calls}
use localclaw.Adapters.Joined.Reading.{Reads, adapter-Reads}
use localclaw.Adapters.Libraries.{Libraries}

module _ {S : Type 0} ⦃H : Host S⦄ where
  -- Over the adapters, and whatever the operating system answers, `lclaw doctor`, `lclaw status`,
  -- `lclaw secrets list` and `lclaw secrets describe` make these calls alone: the context is asked, a
  -- step is announced, a file is looked at or read, the home directory is asked for, podman and flox
  -- show versions, lists, the description of secrets and whether something exists, `security`
  -- describes an item without its value, the keychain is unlocked by its dialog, and the minter is
  -- asked whether it is ready. Nothing is written, started or removed.
  pub looking-Reads :
      (libs : Libraries) (shown : Finding → String) (dir name : String) (s : S)
      → Calls Reads (doctor ⦃H = joined libs⦄ shown dir (s, [])).state.1
        × (Calls Reads (status ⦃H = joined libs⦄ dir (s, [])).state.1
            × (Calls Reads (list_secrets ⦃H = joined libs⦄ dir (s, [])).state.1
                × Calls Reads (describe ⦃H = joined libs⦄ dir name (s, [])).state.1))
  looking-Reads libs shown dir name s =
      let asked = readers-Asks ⦃H = joined libs⦄ shown dir name in
      let answered = adapter-Reads libs in
      (
        beneath-Calls libs answered _ asked.0 s,
        (
          beneath-Calls libs answered _ asked.1.0 s,
          (
            beneath-Calls libs answered _ asked.1.1.0 s,
            beneath-Calls libs answered _ asked.1.1.1 s,
          ),
        ),
      )
