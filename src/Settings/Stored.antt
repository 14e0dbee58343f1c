-- ===== src/Settings/Stored.antt =====
-- Settings that pass `Validate` survive `MarshalJSON` and `UnmarshalJSON`.
use cfwarp_cli.Prelude.{
  ◌≡◌, ◌≢◌, refl, sym, ap, ◌∙◌, ◌⊎◌, inl, inr, none, arith, String, ◌==◌, eq_iff, [], ◌∷◌, All,
  is_zero, false, trim_space, ℤ, pos, negsuc,
}
use mathlib.Core.Path.{subst}
use cfwarp_cli.State.Settings.{Settings, derive_backend_tag}
use cfwarp_cli.State.Settings.Normalize.{normalize}
use cfwarp_cli.State.Settings.Normal.Fixed.{IsNormal, access-listed}
use cfwarp_cli.State.Settings.Normal.Reached.{normalize-IsNormal}
use cfwarp_cli.State.Settings.Json.{marshal, unmarshal}
use cfwarp_cli.State.Settings.Json.Roundtrip.{
  IsStorable, without_zero_blocks, unmarshal-marshal_storable,
}
use cfwarp_cli.Settings.Validate.{validate}
use cfwarp_cli.Settings.Validate.Spec.{Among, InRange, IsListener, IsValid}
use cfwarp_cli.Settings.Validate.Valid.{validate_iff}

pub trim_space-mode : (m : String) → (m ≡ "socks5") ⊎ (m ≡ "http") → trim_space m ≡ m
unfolding trim_space
trim_space-mode m (inl e) = rw e refl
trim_space-mode m (inr e) = rw e refl

derive-ne-nil :
    (f t : String)
    → ((f ≡ "legacy") × (t ≡ "wireguard")) ⊎ ((f ≡ "native") × (t ≡ "masque"))
    → derive_backend_tag f t ≢ ""
unfolding derive_backend_tag
derive-ne-nil f t (inl (p, q)) e =
    ground (
      arith,
      ap (λ z. z == "legacy") p,
      ap (λ z. z == "wireguard") q,
      eq_iff "singbox-wireguard" "",
    )
derive-ne-nil f t (inr (p, q)) e = ground (
  arith,
  ap (λ z. z == "legacy") p,
  ap (λ z. z == "native") p,
  ap (λ z. z == "masque") q,
  eq_iff "native-masque" "",
)

log_level-ne-nil : (l : String) → Among ("debug" ∷ "info" ∷ "warn" ∷ "error" ∷ []) l → l ≢ ""
log_level-ne-nil l h e = ground (
  arith,
  h,
  eq_iff l "",
  eq_iff "debug" "",
  eq_iff "info" "",
  eq_iff "warn" "",
  eq_iff "error" "",
  ap (λ z. z == "debug") e,
  ap (λ z. z == "info") e,
  ap (λ z. z == "warn") e,
  ap (λ z. z == "error") e,
)

InRange-ported : (p : ℤ) → InRange 1 65535 p → is_zero p ≡ false
InRange-ported (pos n) h = ground arith
InRange-ported (negsuc n) h = elim h [ ]

primary-IsListener :
    (n : Settings) (h : IsNormal n) → All IsListener n.access → IsListener h.primary
primary-IsListener n h l = (subst (All IsListener) (access-listed n h) l).0

IsValid-IsStorable : (n : Settings) → IsNormal n → IsValid n → IsStorable n
IsValid-IsStorable n h v = record {
  normal = h;
  supported = derive-ne-nil n.runtime_family n.transport v.runtime;
  logged = log_level-ne-nil n.log_level v.logged;
  hosted =
      λ e. (primary-IsListener n h v.listening).hosted (ap (λ t. t.listen_host) h.followed ∙ e);
  ported =
      ap (λ t. is_zero t.listen_port) (sym h.followed)
      ∙ InRange-ported _ (primary-IsListener n h v.listening).bounded;
}

pub unmarshal-marshal_settings :
    (s : Settings) → validate s ≡ none → unmarshal (marshal s) ≡ without_zero_blocks (normalize s)
unmarshal-marshal_settings s e =
    let v = (validate_iff s).0 e in
    unmarshal-marshal_storable s
      (IsValid-IsStorable (normalize s) (normalize-IsNormal s (trim_space-mode _ v.proxied)) v)
