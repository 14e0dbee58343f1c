-- ===== src/Service/Frame.antt =====
-- What the calls do to the state files, however they end.
use cfwarp_cli.Prelude.{String, ◌≡◌, ap, ◌∙◌, Bool, true, false, arith}
use cfwarp_cli.State.Account as Account
use cfwarp_cli.State.Account.{AccountState, AccountStateJson}
use cfwarp_cli.State.Store.{holds, save_account, load_account}
use cfwarp_cli.Service.Action.{
  Error, under, Result, Ends, Returns, >>=-Ends, under-Ends, map-Ends, of_result, raise_unless,
  no_directories,
}
use cfwarp_cli.Service.Host.{Files, Machine, RegistrationResult, Host, asks, outside_call}
use cfwarp_cli.Service.Registration.{
  registered_account, write_account, enroll_masque, register_account, check_existing,
}

abbrev pub with_account : AccountState → Files → Files
with_account acc f = record f { account = holds (Account.marshal (Account.normalize acc)) }

-- A call that leaves the files as `f` is, however it ends.
abbrev pub Keeps : {W A : Type 0} → Files → Result A × Machine W → Type 0
Keeps f = Ends (λ _ m. m.files ≡ f) (λ m. m.files ≡ f)

pub raise_unless-Keeps :
    {W : Type 0} {f : Files} (reason : Error) (b : Bool) (m : Machine W)
    → m.files ≡ f
    → Keeps f (raise_unless reason b m)
raise_unless-Keeps reason true m e = record { outcome = e }
raise_unless-Keeps reason false m e = record { outcome = e }

module _ {W A : Type 0} {f : Files} where
  pub outside_call-Keeps :
      (call : W → Result A × W) (m : Machine W) → m.files ≡ f → Keeps f (outside_call call m)
  outside_call-Keeps call m e = record { outcome = ground (arith, e) }

  pub under_call-Keeps :
      (text : String) (call : W → Result A × W) (m : Machine W)
      → m.files ≡ f
      → Keeps f (under text (outside_call call) m)
  under_call-Keeps text call m e =
      under-Ends text (outside_call call) m (outside_call-Keeps call m e)

  pub asks-Keeps : (call : W → A × W) (m : Machine W) → m.files ≡ f → Keeps f (asks call m)
  asks-Keeps call m e = record { outcome = e }

  pub of_result-Keeps : (r : Result A) (m : Machine W) → m.files ≡ f → Keeps f (of_result r m)
  of_result-Keeps r m e = record { outcome = ground (arith, e) }

module _ {W : Type 0} (host : Host W) where
  pub write_account-Ends :
      (force : Bool) (acc : AccountState) (m : Machine W)
      → Ends
          (λ _ m'. m'.files ≡ with_account acc m.files)
          (λ m'. m'.files ≡ m.files)
          (write_account host force acc m)
  unfolding write_account save_account
  write_account-Ends force acc m = record { outcome = ground arith }

  -- A save that overwrites, and whose write goes through, reports no error.
  pub write_account-Returns :
      (acc : AccountState) (m : Machine W)
      → ((w : W) → (host.writes w).0 ≡ true)
      → Returns (λ _ m'. m'.files ≡ with_account acc m.files) (write_account host true acc m)
  unfolding write_account save_account
  write_account-Returns acc m writes = record { outcome = ground (arith, writes m.world) }

  enroll_masque-Keeps :
      {f : Files} (masque : Bool) (result : RegistrationResult) (acc : AccountState) (m : Machine W)
      → m.files ≡ f
      → Keeps f (enroll_masque host masque result acc m)
  unfolding enroll_masque
  enroll_masque-Keeps masque result acc m e = record { outcome = ground (arith, e) }

  -- A registration that reports no error has written one account to the account's file; one that
  -- ends in an error has changed no file. The other files are as they were.
  pub register_account-Ends :
      (force masque : Bool) (m : Machine W) (f : Files)
      → m.files ≡ f
      → Ends
          (λ _ m'. (acc : AccountState) × (m'.files ≡ with_account acc f))
          (λ m'. m'.files ≡ f)
          (register_account host force masque m)
  unfolding register_account
  register_account-Ends force masque m f e =
      >>=-Ends (asks host.makes_directories) _ m (asks-Keeps host.makes_directories m e)
        λ made m1 e1.
          >>=-Ends (raise_unless no_directories made) _ m1
            (raise_unless-Keeps no_directories made m1 e1)
            λ _ m2 e2.
              >>=-Ends (of_result (check_existing force (load_account m2.files.account))) _ m2
                (of_result-Keeps _ m2 e2)
                λ _ m3 e3.
                  >>=-Ends (under "generate keypair" (outside_call host.generate_keypair)) _ m3
                    (under_call-Keeps "generate keypair" host.generate_keypair m3 e3)
                    λ kp m4 e4.
                      >>=-Ends
                        (under "registration failed"
                          (outside_call (host.register_consumer kp.public_key)))
                        _ m4
                        (under_call-Keeps "registration failed"
                          (host.register_consumer kp.public_key) m4 e4)
                        λ result m5 e5.
                          >>=-Ends
                            (enroll_masque host masque result
                              (registered_account kp result (host.now m5.world).0))
                            _ (asks host.now m5).1 (enroll_masque-Keeps masque result _ _ e5)
                            λ acc m6 e6.
                              under-Ends "save account" (write_account host force acc) m6 (
                                map-Ends (write_account host force acc m6)
                                  (λ _ _ h. (acc, h ∙ ap (with_account acc) e6)) (λ _ h. h ∙ e6)
                                  (write_account-Ends force acc m6))
