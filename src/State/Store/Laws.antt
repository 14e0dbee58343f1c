-- ===== src/State/Store/Laws.antt =====
-- State files that are saved and loaded.
use cfwarp_cli.Prelude.{◌≡◌, refl, ap, ◌∙◌, Bool, true, false, if◌then◌else◌}
use cfwarp_cli.State.Account as Account
use cfwarp_cli.State.Account.{AccountState, AccountStateJson}
use cfwarp_cli.State.Account.Laws as AccountLaws
use cfwarp_cli.State.Runtime as Runtime
use cfwarp_cli.State.Runtime.{RuntimeState, RuntimeStateJson}
use cfwarp_cli.State.Runtime.Laws as RuntimeLaws
use cfwarp_cli.State.Store.{
  Content, absent, garbled, holds, found, read_json, exists, save_account, load_account,
  save_runtime, load_runtime,
}

pub account_read_back :
    (acc : AccountState)
    → Account.normalize (Account.unmarshal (Account.marshal (Account.normalize acc)))
      ≡ Account.normalize acc
account_read_back acc =
    ap Account.normalize (
      AccountLaws.unmarshal-marshal_account (Account.normalize acc)
      ∙ AccountLaws.normalize_idem acc)
    ∙ AccountLaws.normalize_idem acc

-- Whether a save that is perhaps forced takes place.
abbrev pub writes_over {ℓ} : {P : Type ℓ} → Bool → Bool → Content P → Bool
writes_over true writes old = writes
writes_over false writes old = if exists old then false else writes

-- An account is saved unless one is there and the save is not forced; when the call reports no
-- error, loading gives the account as `Normalize` leaves it, and otherwise what it gave before.
pub save_account-load_account :
    (force writes : Bool) (acc : AccountState) (old : Content AccountStateJson)
    → let r = save_account force writes acc old in
      (r.0 ≡ writes_over force writes old)
      × (load_account r.1 ≡ (if r.0 then found (Account.normalize acc) else load_account old))
unfolding save_account load_account read_json
save_account-load_account true true acc old = (refl, ap found (account_read_back acc))
save_account-load_account true false acc old = (refl, refl)
save_account-load_account false true acc absent = (refl, ap found (account_read_back acc))
save_account-load_account false true acc garbled = (refl, refl)
save_account-load_account false true acc (holds p) = (refl, refl)
save_account-load_account false false acc absent = (refl, refl)
save_account-load_account false false acc garbled = (refl, refl)
save_account-load_account false false acc (holds p) = (refl, refl)

pub runtime_read_back :
    (rt : RuntimeState)
    → Runtime.normalize (Runtime.unmarshal (Runtime.marshal (Runtime.normalize rt)))
      ≡ Runtime.normalize rt
runtime_read_back rt =
    ap Runtime.normalize
      (RuntimeLaws.unmarshal-marshal_runtime (Runtime.normalize rt) ∙ RuntimeLaws.normalize_idem rt)
    ∙ RuntimeLaws.normalize_idem rt

-- A runtime state that is saved is loaded as `Normalize` leaves it; a save that fails changes nothing.
pub save_runtime-load_runtime :
    (writes : Bool) (rt : RuntimeState) (old : Content RuntimeStateJson)
    → let r = save_runtime writes rt old in
      (r.0 ≡ writes)
      × (load_runtime r.1 ≡ (if writes then found (Runtime.normalize rt) else load_runtime old))
unfolding save_runtime load_runtime read_json
save_runtime-load_runtime true rt old = (refl, ap found (runtime_read_back rt))
save_runtime-load_runtime false rt old = (refl, refl)
