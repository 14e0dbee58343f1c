-- ===== src/Service/Imported.antt =====
-- What an import writes.
use cfwarp_cli.Prelude.{
  ◌≡◌, refl, ap, ◌∙◌, Bool, true, false, ◌==◌, is_empty, nat_eq, arith, if◌then◌else◌,
}
use cfwarp_cli.State.Account.{AccountState, AccountStateJson}
use cfwarp_cli.State.Store.{Content, load_account}
use cfwarp_cli.Service.Action.{
  no_directories, Ends, >>=-Ends, under-Ends, map-Ends, of_result, raise_unless, under, pure, ◌>>=◌,
}
use cfwarp_cli.Service.Host.{Files, Machine, Host, asks}
use cfwarp_cli.Service.Registration.{check_existing, write_account}
use cfwarp_cli.Service.Import.{missing_of, validate_account, parsed, stamp, import_account}
use cfwarp_cli.Service.Frame.{
  with_account, asks-Keeps, of_result-Keeps, raise_unless-Keeps, write_account-Ends,
}

-- An account from an import, with the fields that a tunnel needs.
pub record IsUsable (acc : AccountState) : Type 0 where
  pub has_id : (acc.account_id == "") ≡ false
  pub has_token : (acc.token == "") ≡ false
  pub has_private_key : (acc.warp_private_key == "") ≡ false
  pub has_peer_key : (acc.warp_peer_pub_key == "") ≡ false
  pub has_ipv4 : (acc.warp_ipv4 == "") ≡ false
  pub has_ipv6 : (acc.warp_ipv6 == "") ≡ false
  pub is_import : acc.source ≡ "import"

missing_of-none :
    (acc : AccountState)
    → is_empty (missing_of acc) ≡ true
    → ((acc.account_id == "") ≡ false)
      × ((acc.token == "") ≡ false)
      × ((acc.warp_private_key == "") ≡ false)
      × ((acc.warp_peer_pub_key == "") ≡ false)
      × ((acc.warp_ipv4 == "") ≡ false)
      × ((acc.warp_ipv6 == "") ≡ false)
unfolding missing_of
missing_of-none acc e = ground (arith, e)

module _ {W : Type 0} (host : Host W) (f : Files) where
  validated :
      (acc : AccountState) (m : Machine W)
      → m.files ≡ f
      → Ends
          (λ _ m'. (m'.files ≡ f) × (is_empty (missing_of acc) ≡ true))
          (λ m'. m'.files ≡ f)
          (of_result (validate_account acc) m)
  unfolding validate_account
  validated acc m e = record { outcome = ground (arith, e) }

  stamp-IsUsable :
      (acc : AccountState) (m : Machine W)
      → m.files ≡ f
      → is_empty (missing_of acc) ≡ true
      → Ends
          (λ stamped m'. (m'.files ≡ f) × IsUsable stamped)
          (λ m'. m'.files ≡ f)
          (stamp host acc m)
  unfolding stamp
  stamp-IsUsable acc m e v = let h = missing_of-none acc v in go h (nat_eq acc.created_at 0)
    where
      go :
          ((acc.account_id == "") ≡ false)
            × ((acc.token == "") ≡ false)
            × ((acc.warp_private_key == "") ≡ false)
            × ((acc.warp_peer_pub_key == "") ≡ false)
            × ((acc.warp_ipv4 == "") ≡ false)
            × ((acc.warp_ipv6 == "") ≡ false)
          → (b : Bool)
          → Ends
              (λ stamped m'. (m'.files ≡ f) × IsUsable stamped)
              (λ m'. m'.files ≡ f)
              ((if b
                  then (asks host.now >>= λ now.
                      pure (record acc { source = "import"; created_at = now }))
                  else pure (record acc { source = "import" }))
                m)
      go h true = record {
        outcome = (
          e,
          record {
            has_id = h.0;
            has_token = h.1;
            has_private_key = h.2;
            has_peer_key = h.3;
            has_ipv4 = h.4;
            has_ipv6 = h.5;
            is_import = refl;
          },
        );
      }
      go h false = record {
        outcome = (
          e,
          record {
            has_id = h.0;
            has_token = h.1;
            has_private_key = h.2;
            has_peer_key = h.3;
            has_ipv4 = h.4;
            has_ipv6 = h.5;
            is_import = refl;
          },
        );
      }

  -- An import that reports no error has written one account to the account's file, marked as imported
  -- and with every required field given; one that ends in an error has changed no file. The other
  -- files are as they were.
  pub import_account-Ends :
      (force : Bool) (content : Content AccountStateJson) (m : Machine W)
      → m.files ≡ f
      → Ends
          (λ _ m'. (acc : AccountState) × IsUsable acc × (m'.files ≡ with_account acc f))
          (λ m'. m'.files ≡ f)
          (import_account host force content m)
  unfolding import_account
  import_account-Ends force content m e =
      >>=-Ends (asks host.makes_directories) _ m (asks-Keeps host.makes_directories m e)
        λ made m1 e1.
          >>=-Ends (raise_unless no_directories made) _ m1
            (raise_unless-Keeps no_directories made m1 e1)
            λ _ m2 e2.
              >>=-Ends (of_result (check_existing force (load_account m2.files.account))) _ m2
                (of_result-Keeps _ m2 e2)
                λ _ m3 e3.
                  >>=-Ends (of_result (parsed content)) _ m3
                    (of_result-Keeps (parsed content) m3 e3)
                    λ acc m4 e4.
                      >>=-Ends (under "invalid import file" (of_result (validate_account acc))) _ m4
                        (under-Ends "invalid import file" (of_result (validate_account acc)) m4
                          (validated acc m4 e4))
                        λ _ m5 v.
                          >>=-Ends (stamp host acc) _ m5 (stamp-IsUsable acc m5 v.0 v.1)
                            λ stamped m6 u.
                              under-Ends "save account" (write_account host force stamped) m6 (
                                map-Ends (write_account host force stamped m6)
                                  (λ _ _ h. (stamped, u.1, h ∙ ap (with_account stamped) u.0))
                                  (λ _ h. h ∙ u.0) (write_account-Ends host force stamped m6))
