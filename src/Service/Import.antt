-- ===== src/Service/Import.antt =====
-- `runImport` of cmd/account_helpers.go and `validateAccount` of cmd/import.go: an account is taken
-- from a file, given as what decoding it gives.
use cfwarp_cli.Prelude.{Bool, String, ◌==◌, List, [], ◌∷◌, is_empty, nat_eq, if◌then◌else◌}
use cfwarp_cli.State.Account as Account
use cfwarp_cli.State.Account.{Time, AccountState, AccountStateJson}
use cfwarp_cli.State.Store.{Content, absent, garbled, holds, load_account}
use cfwarp_cli.Service.Action.{
  no_directories, no_import_file, corrupt, missing_fields, Result, ok, err, Action, ⊤, pure, gets,
  of_result, ◌>>=◌, ◌>>◌, raise_unless, under,
}
use cfwarp_cli.Service.Host.{Machine, Host, asks}
use cfwarp_cli.Service.Registration.{check_existing, write_account}

-- The name of a field, if its value is empty, before those of the others.
abbrev pub unless_given : String → String → List String → List String
unless_given value name others = if value == "" then name ∷ others else others

unfoldable pub missing_of : AccountState → List String
missing_of acc = unless_given acc.account_id "account_id" (
    unless_given acc.token "token" (
      unless_given acc.warp_private_key "warp_private_key" (
        unless_given acc.warp_peer_pub_key "warp_peer_public_key"
          (unless_given acc.warp_ipv4 "warp_ipv4" (unless_given acc.warp_ipv6 "warp_ipv6" [])))))

unfoldable pub validate_account : AccountState → Result ⊤
validate_account acc =
    let missing = missing_of acc in if is_empty missing then ok tt else err (missing_fields missing)

abbrev pub parsed : Content AccountStateJson → Result AccountState
parsed absent = err no_import_file
parsed garbled = err corrupt
parsed (holds p) = ok (Account.unmarshal p)

module _ {W : Type 0} (host : Host W) where
  -- The source, and the time of an account that has none.
  unfoldable pub stamp : AccountState → Action (Machine W) AccountState
  stamp acc =
      if nat_eq acc.created_at 0
      then (do now ← asks host.now; pure (record acc { source = "import"; created_at = now }))
      else pure (record acc { source = "import" })

  unfoldable pub import_account : Bool → Content AccountStateJson → Action (Machine W) ⊤
  import_account force content = do
    made ← asks host.makes_directories
    raise_unless no_directories made
    files ← gets (λ m. m.files)
    of_result (check_existing force (load_account files.account))
    acc ← of_result (parsed content)
    under "invalid import file" (of_result (validate_account acc))
    stamped ← stamp acc
    under "save account" (write_account host force stamped)
