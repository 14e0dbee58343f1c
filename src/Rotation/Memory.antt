-- ===== src/Rotation/Memory.antt =====
-- Recording the account's addresses happens once.
use cfwarp_cli.Prelude.{
  ◌+◌, ◌^◌, ◌<◌, ◌≡◌, ◌≢◌, inl, inr, Bool, ◌&&◌, String, ◌==◌, Option, none, some, is_zero, arith,
  if◌then◌else◌, if_elim, Bool-cases, tidy, tidy_idem,
}
use mathlib.Core.Path.{subst}
use cfwarp_cli.State.Account.{Time, AccountState, MasqueState}
use cfwarp_cli.State.Account as Account
use cfwarp_cli.State.Settings.{Settings}
use cfwarp_cli.State.History.{
  RotationFingerprint, RotationHistory, unsupported_transport, wireguard_addresses, Built, built,
  failed, normalize, build_with, build_masque, build_rotation_fingerprint,
  evaluate_rotation_novelty, remember_rotation_fingerprint,
}
use cfwarp_cli.State.History.Novelty.{times_seen}
use cfwarp_cli.State.History.Remember.{remember-evaluate}
use cfwarp_cli.Rotation.{
  rotation_distinctness, rotation_history_size, found, ensure_fingerprint, ensure_rotation_account,
}

-- What a fingerprint that is built looks like.
abbrev IfBuilt : (RotationFingerprint → Type 0) → Built → Type 0
IfBuilt P (built fp) = P fp
IfBuilt P (failed e) = Unit

abbrev IsKeyed : RotationFingerprint → Type 0
IsKeyed fp = (tidy fp.transport ≡ fp.transport) × (fp.fingerprint ≢ "")

module _ (hash : String → String) (hashed : (v : String) → hash v ≢ "") where
  build_with-IsKeyed : (t a b : String) → tidy t ≡ t → IfBuilt IsKeyed (build_with hash t a b)
  unfolding build_with
  build_with-IsKeyed t a b h = if_elim (IfBuilt IsKeyed) (a == "" && b == "") tt (h, hashed _)

  build_masque-IsKeyed :
      (t : String) (m : Option MasqueState) → tidy t ≡ t → IfBuilt IsKeyed (build_masque hash t m)
  build_masque-IsKeyed t none h = tt
  build_masque-IsKeyed t (some m) h = build_with-IsKeyed t _ _ h

  build-IsKeyed :
      (acc : AccountState) (name : String)
      → IfBuilt IsKeyed (build_rotation_fingerprint hash acc name)
  unfolding build_rotation_fingerprint
  build-IsKeyed acc name =
      let t = tidy_idem name in
      let state = Account.normalize acc in
      let pair = wireguard_addresses state state.wireguard in
      if_elim (IfBuilt IsKeyed) (tidy name == "wireguard")
        {y = if tidy name == "masque"
          then build_masque hash (tidy name) state.masque
          else failed unsupported_transport}
        (build_with-IsKeyed (tidy name) (tidy pair.0) (tidy pair.1) t)
        (if_elim (IfBuilt IsKeyed) (tidy name == "masque") {y = failed unsupported_transport}
          (build_masque-IsKeyed (tidy name) state.masque t) tt)

-- What a second look at a history that was just written says.
ensure_fingerprint-again :
    (save save' : RotationHistory → Bool) (now now' : Time) (h h' : RotationHistory)
    (sett : Settings) (fp : RotationFingerprint)
    → IsKeyed fp
    → times_seen fp (normalize h).entries + 1 < 2 ^ 63
    → (ensure_fingerprint save now h sett (built fp)).written ≡ some h'
    → (ensure_fingerprint save' now' h' sett (built fp)).written ≡ none
unfolding ensure_fingerprint
ensure_fingerprint-again save save' now now' h h' sett fp k b e =
    let d = rotation_distinctness sett in
    let r = remember_rotation_fingerprint now h fp now (rotation_history_size sett) in
    let n = remember-evaluate now h fp now (rotation_history_size sett) d k.0 k.1 b in
    elim (Bool-cases (is_zero (evaluate_rotation_novelty h fp d).seen_count)) [
      | inl z ↦ ground (arith, z, e, n.0)
      | inr z ↦ ground (arith, z, e)
    ]

-- A fingerprint that was not seen is written to the history once: read back, it is left alone. The
-- hash never gives the empty text, and the fingerprint's count stays below 2^63.
pub ensure_rotation_account-again :
    (hash : String → String)
    → ((v : String) → hash v ≢ "")
    → (save save' : RotationHistory → Bool) (now now' : Time) (h h' : RotationHistory)
      (acc : AccountState) (sett : Settings) (fp : RotationFingerprint)
    → build_rotation_fingerprint hash acc sett.transport ≡ built fp
    → times_seen fp (normalize h).entries + 1 < 2 ^ 63
    → (ensure_rotation_account save now hash (found h) acc sett).written ≡ some h'
    → (ensure_rotation_account save' now' hash (found h') acc sett).written ≡ none
unfolding ensure_rotation_account
ensure_rotation_account-again hash hashed save save' now now' h h' acc sett fp b bound = rw b (
    ensure_fingerprint-again save save' now now' h h' sett fp
      (subst (IfBuilt IsKeyed) b (build-IsKeyed hash hashed acc sett.transport)) bound)
