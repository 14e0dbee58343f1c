-- ===== src/Rotate/Tests.antt =====
-- A rotation at a concrete host.
use cfwarp_cli.Prelude.{ℕ, ◌≡◌, refl, ap, false, List, [], ◌∷◌, String, pos}
use cfwarp_cli.State.Account as Account
use cfwarp_cli.State.Account.{AccountState}
use cfwarp_cli.State.Settings.{Settings, default_settings}
use cfwarp_cli.State.Store.{absent, holds, found, load_account, read_json}
use cfwarp_cli.State.Store.Laws.{account_read_back}
use cfwarp_cli.Service.Action.{⊤, Ends, Result, err, still_failing}
use cfwarp_cli.Service.Host.{Machine}
use cfwarp_cli.Service.Registration.{registered_account}
use cfwarp_cli.Service.Sample.{sample_host, sample_registration}
use cfwarp_cli.Rotate.{Flags, rotate}
use cfwarp_cli.Rotate.Previous.{rotate-Kept}

abbrev before : AccountState
before =
    registered_account (record { private_key = "private"; public_key = "public" })
      sample_registration 5

abbrev machine : Machine ℕ
machine = record {
  files = record {
    account = holds (Account.marshal (Account.normalize before));
    last_good = absent;
    history = absent;
    runtime = absent;
  };
  world = 9;
}

abbrev flags : Flags
flags = record { attempts = pos 2; settle = pos 1000000000; masque = false }

abbrev no_service_passes : Settings → List String → ℕ → Result ⊤ × ℕ
no_service_passes sett services w = (err still_failing, w)

loaded : load_account machine.files.account ≡ found (Account.normalize before)
unfolding load_account read_json
loaded = ap found (account_read_back before)

rotate-Kept_example :
    Ends
      (λ _ _. ⊤)
      (λ m'. load_account m'.files.account ≡ found (Account.normalize before))
      (rotate sample_host no_service_passes default_settings ("gemini" ∷ []) flags machine)
rotate-Kept_example =
    rotate-Kept sample_host (λ w. refl) no_service_passes default_settings ("gemini" ∷ []) flags
      (Account.normalize before) machine loaded
