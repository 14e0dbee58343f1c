-- ===== src/Rotate/Previous.antt =====
-- The account after a rotation that fails.
use cfwarp_cli.Prelude.{
  ◌≡◌, sym, ap, ◌∙◌, arith, Bool, true, false, Option, some, List, String, is_positive,
}
use cfwarp_cli.State.Account as Account
use cfwarp_cli.State.Account.{AccountState, AccountStateJson}
use cfwarp_cli.State.Account.Laws as AccountLaws
use cfwarp_cli.State.Settings.{Settings}
use cfwarp_cli.State.Store.{
  Content, absent, garbled, holds, Loading, found, missing, unreadable, load_account, load_runtime,
  read_json,
}
use cfwarp_cli.State.Store.Laws.{account_read_back}
use cfwarp_cli.Service.Action.{
  gets, attempts_too_few, Result, ok, err, Action, ⊤, Ends, after_return, >>=-Ends, map-Ends,
  under-Ends, raise, ◌>>=◌, ◌>>◌, pure, of_result, raise_unless, under,
}
use cfwarp_cli.Service.Host.{Files, Machine, Host}
use cfwarp_cli.Service.Resolve.{ensure_rotation_account}
use cfwarp_cli.Service.Registration.{write_account}
use cfwarp_cli.Service.Backend.{start_backend_runtime, stop_backend_runtime}
use cfwarp_cli.Service.Frame.{with_account, write_account-Returns}
use cfwarp_cli.Service.Running.{RuntimeOnly, stop_backend_runtime-Ends}
use cfwarp_cli.Service.Starting.{Always, start_backend_runtime-Always}
use cfwarp_cli.Rotate.{
  Flags, previous_account, rotate_loop, start_kept, put_back, rotate_result, is_active,
  note_current, rotate_with, rotate,
}

loaded_IsNormal :
    (c : Content AccountStateJson) (acc : AccountState)
    → load_account c ≡ found acc
    → Account.normalize acc ≡ acc
unfolding load_account read_json
loaded_IsNormal absent acc e = ground (arith, e)
loaded_IsNormal garbled acc e = ground (arith, e)
loaded_IsNormal (holds p) acc e =
    let value : Loading AccountState → AccountState =
      λ l. elim l [ found a ↦ a | missing ↦ acc | unreadable ↦ acc ] in
    let same : Account.normalize (Account.unmarshal p) ≡ acc = ap value e in
    ap Account.normalize (sym same) ∙ AccountLaws.normalize_idem (Account.unmarshal p) ∙ same

module _ {W : Type 0} (host : Host W) (writes : (w : W) → (host.writes w).0 ≡ true)
    (check_services : Settings → List String → W → Result ⊤ × W) (sett : Settings)
    (services : List String) (flags : Flags) (acc : AccountState)
    (normal : Account.normalize acc ≡ acc) where
  abbrev pub Kept : Files → Type 0
  Kept f = load_account f.account ≡ found acc

  noted :
      (m : Machine W)
      → Kept m.files
      → Kept (note_current host check_services sett services flags (some acc) m).1.files
  unfolding ensure_rotation_account
  noted m h = h

  Kept-RuntimeOnly : (f g : Files) → Kept f → RuntimeOnly f g → Kept g
  Kept-RuntimeOnly f g h (c, e) = ap (λ f. load_account f.account) e ∙ h

  start_kept-Always :
      (keep : Bool) (m : Machine W)
      → Kept m.files
      → Always Kept (start_kept host check_services sett services flags keep m)
  start_kept-Always false m h = record { outcome = h }
  start_kept-Always true m h =
      >>=-Ends
        (under "restore backend with previous account" (start_backend_runtime host sett false))
        (λ _. pure tt) m
        (under-Ends "restore backend with previous account" (start_backend_runtime host sett false)
          m
          (map-Ends (start_backend_runtime host sett false m)
            (λ _ _ e. Kept-RuntimeOnly m.files _ h e) (λ _ e. Kept-RuntimeOnly m.files _ h e)
            (start_backend_runtime-Always host sett false acc m h)))
        λ _ m1 h1. record { outcome = h1 }

  written-Kept : (f : Files) → Kept (with_account acc f)
  unfolding load_account read_json
  written-Kept f = ap found (account_read_back acc ∙ normal)

  put_back-Always :
      (keep : Bool) (m : Machine W)
      → Always Kept (put_back host check_services sett services flags (some acc) keep m)
  put_back-Always keep m =
      after_return (under "restore previous account" (write_account host true acc))
        (λ _. start_kept host check_services sett services flags keep) m
        (under-Ends "restore previous account" (write_account host true acc) m
          (write_account-Returns host acc m writes))
        λ _ m1 e.
          start_kept-Always keep m1 (ap (λ f. load_account f.account) e ∙ written-Kept m.files)

  rotate_result-Kept :
      (keep : Bool) (r : Result ⊤) (m : Machine W)
      → Ends
          (λ _ _. ⊤)
          (λ m'. Kept m'.files)
          (rotate_result host check_services sett services flags (some acc) keep r m)
  rotate_result-Kept keep (ok a) m = record { outcome = tt }
  rotate_result-Kept keep (err e) m =
      >>=-Ends (put_back host check_services sett services flags (some acc) keep) (λ _. raise e) m
        (put_back-Always keep m) λ _ m1 h1. record { outcome = h1 }

  rotate_loop-Kept :
      (keep : Bool) (m : Machine W)
      → Ends
          (λ _ _. ⊤)
          (λ m'. Kept m'.files)
          (rotate_loop host check_services sett services flags (some acc) keep m)
  unfolding rotate_loop
  rotate_loop-Kept keep m = rotate_result-Kept keep _ _

  rotate_with-Kept :
      (m : Machine W)
      → Kept m.files
      → Ends
          (λ _ _. ⊤)
          (λ m'. Kept m'.files)
          (rotate_with host check_services sett services flags (some acc) m)
  unfolding rotate_with
  rotate_with-Kept m h =
      let m1 = (note_current host check_services sett services flags (some acc) m).1 in
      let running =
        is_active host check_services sett services flags (load_runtime m1.files.runtime)
          m1.world in
      >>=-Ends (stop_backend_runtime host)
        (λ _. rotate_loop host check_services sett services flags (some acc) running) m1
        (map-Ends (stop_backend_runtime host m1)
          (λ _ _ e. Kept-RuntimeOnly m1.files _ (noted m h) (_, e))
          (λ _ e. Kept-RuntimeOnly m1.files _ (noted m h) e) (stop_backend_runtime-Ends host m1))
        λ _ m2 h2. rotate_loop-Kept running m2

module _ {W : Type 0} (host : Host W) where
  -- A rotation that ends in an error leaves the account that was there before, when every write goes
  -- through.
  pub rotate-Kept :
      ((w : W) → (host.writes w).0 ≡ true)
      → (check_services : Settings → List String → W → Result ⊤ × W)
      → (sett : Settings) (services : List String) (flags : Flags) (acc : AccountState)
        (m : Machine W)
      → load_account m.files.account ≡ found acc
      → Ends
          (λ _ _. ⊤)
          (λ m'. load_account m'.files.account ≡ found acc)
          (rotate host check_services sett services flags m)
  unfolding rotate
  rotate-Kept writes check_services sett services flags acc m e = go (is_positive flags.attempts)
    where
      with_previous : Option AccountState → Action (Machine W) ⊤
      with_previous = rotate_with host check_services sett services flags

      go :
          (b : Bool)
          → Ends
              (λ _ _. ⊤)
              (λ m'. load_account m'.files.account ≡ found acc)
              ((raise_unless attempts_too_few b
                  >> (gets (λ m'. previous_account (load_account m'.files.account)) >>= λ p.
                      of_result p >>= with_previous))
                m)
      go true = rw e (
          rotate_with-Kept host writes check_services sett services flags acc
            (loaded_IsNormal m.files.account acc e) m e)
      go false = record { outcome = e }
