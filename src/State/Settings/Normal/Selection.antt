-- ===== src/State/Settings/Normal/Selection.antt =====
-- The runtime that `Settings.Normalize` selects.
use cfwarp_cli.Prelude.{
  ◌≡◌, refl, ◌==◌, eq_iff, String, arith, to_lower, if_elim, if◌then◌else◌, ◌⊎◌,
}
use cfwarp_cli.State.Settings.{infer_runtime_selection, derive_backend_tag}

pub derive_without_family : (t : String) → derive_backend_tag "" t ≡ ""
unfolding derive_backend_tag
derive_without_family t = refl

pub derive_without_transport : (f : String) → derive_backend_tag f "" ≡ ""
unfolding derive_backend_tag
derive_without_transport f = ground arith

module _ (P : String × String → Type 0) where
  pub infer_cases :
      P ("legacy", "wireguard")
      → P ("native", "masque")
      → P ("native", "wireguard")
      → P ("", "")
      → (b : String) → P (infer_runtime_selection b)
  unfolding infer_runtime_selection
  infer_cases p q r n b = if_elim P _ p (if_elim P _ q (if_elim P _ r n))

module _ (P : String → Type 0) where
  pub derive_cases :
      P "singbox-wireguard"
      → P "native-masque"
      → P "native-wireguard"
      → P ""
      → (f t : String) → P (derive_backend_tag f t)
  unfolding derive_backend_tag
  derive_cases p q r n f t = if_elim P _ p (if_elim P _ q (if_elim P _ r n))

pub to_lower-infer :
    (b : String)
    → (to_lower (infer_runtime_selection b).0 ≡ (infer_runtime_selection b).0)
      × (to_lower (infer_runtime_selection b).1 ≡ (infer_runtime_selection b).1)
unfolding to_lower
to_lower-infer =
    infer_cases (λ c. (to_lower c.0 ≡ c.0) × (to_lower c.1 ≡ c.1)) (refl, refl) (refl, refl)
      (refl, refl) (refl, refl)

pub to_lower-derive : (f t : String) → to_lower (derive_backend_tag f t) ≡ derive_backend_tag f t
unfolding to_lower
to_lower-derive = derive_cases (λ b. to_lower b ≡ b) refl refl refl refl

-- A runtime family, a transport and a backend tag on which another pass has nothing to change.
pub record IsSelected (family transport backend : String) : Type 0 where
  pub no_family : family ≡ "" → (infer_runtime_selection backend).0 ≡ ""
  pub no_transport : transport ≡ "" → (infer_runtime_selection backend).1 ≡ ""
  pub tagged :
      (derive_backend_tag family transport ≡ "") ⊎ (derive_backend_tag family transport ≡ backend)
  pub lowered :
      (to_lower family ≡ family) × (to_lower transport ≡ transport) × (to_lower backend ≡ backend)

-- Filling in an empty name from the tag, and the tag from the names.
unfoldable pub fill_family : String → String → String
fill_family b f = if f == "" then (infer_runtime_selection b).0 else f

unfoldable pub fill_transport : String → String → String
fill_transport b t = if t == "" then (infer_runtime_selection b).1 else t

unfoldable pub retag : String → String → String → String
retag f t b = if derive_backend_tag f t == "" then b else derive_backend_tag f t

fill_family-eq-nil : (b f : String) → fill_family b f ≡ "" → (infer_runtime_selection b).0 ≡ ""
unfolding fill_family
fill_family-eq-nil b f h = ground (arith, eq_iff f "")

fill_transport-eq-nil :
    (b t : String) → fill_transport b t ≡ "" → (infer_runtime_selection b).1 ≡ ""
unfolding fill_transport
fill_transport-eq-nil b t h = ground (arith, eq_iff t "")

retag_cases :
    (f t b : String)
    → ((derive_backend_tag f t ≡ "") × (retag f t b ≡ b)) ⊎ (retag f t b ≡ derive_backend_tag f t)
unfolding retag
retag_cases f t b = ground (arith, eq_iff (derive_backend_tag f t) "")

retag_without_family : (f t b : String) → f ≡ "" → retag f t b ≡ b
unfolding retag derive_backend_tag
retag_without_family f t b e = rw e

retag_without_transport : (f t b : String) → t ≡ "" → retag f t b ≡ b
unfolding retag
retag_without_transport f t b e = rw (e, derive_without_transport f)

to_lower-retag : (f t b : String) → to_lower b ≡ b → to_lower (retag f t b) ≡ retag f t b
unfolding retag
to_lower-retag f t b h = if_elim (λ c. to_lower c ≡ c) _ h (to_lower-derive f t)

pub fill-IsSelected :
    (f t b : String)
    → to_lower f ≡ f
    → to_lower t ≡ t
    → to_lower b ≡ b
    → let g = fill_family b f in let u = fill_transport b t in IsSelected g u (retag g u b)
unfolding fill_family fill_transport
fill-IsSelected f t b lf lt lb = record {
  no_family = λ e. rw (retag_without_family _ (fill_transport b t) b e) (fill_family-eq-nil b f e);
  no_transport =
      λ e. rw (retag_without_transport (fill_family b f) _ b e) (fill_transport-eq-nil b t e);
  tagged = ground (arith, retag_cases (fill_family b f) (fill_transport b t) b);
  lowered = (
    if_elim (λ c. to_lower c ≡ c) (f == "") (to_lower-infer b).0 lf,
    if_elim (λ c. to_lower c ≡ c) (t == "") (to_lower-infer b).1 lt,
    to_lower-retag _ _ b lb,
  );
}
