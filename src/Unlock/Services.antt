-- ===== src/Unlock/Services.antt =====
-- What the list of services holds.
use cfwarp_cli.Prelude.{
  ◌≡◌, ◌≢◌, true, false, String, ◌==◌, eq_iff, Option, none, some, List, [], ◌∷◌, ◌++◌, All, arith,
  if_cases,
}
use mathlib.Core.Path.{subst}
use cfwarp_cli.Prelude.Net.{split_commas}
use cfwarp_cli.Unlock.{
  normalize_service, is_supported, is_seen, add_parts, then_items, add_items, normalize_services,
}

-- Supported services, none of them twice.
abbrev pub AreDistinct : List String → Type 0
AreDistinct [] = Unit
AreDistinct (name ∷ names) = All (λ other. other ≢ name) names × AreDistinct names

abbrev pub AreServices : List String → Type 0
AreServices names = All (λ name. is_supported name ≡ true) names × AreDistinct names

All-snoc {κ} :
    (P : String → Type κ) (out : List String) (name : String)
    → All P out
    → P name
    → All P (out ++ (name ∷ []))
All-snoc P [] name h p = (p, tt)
All-snoc P (o ∷ out) name h p = (h.0, All-snoc P out name h.1 p)

AreDistinct-snoc :
    (out : List String) (name : String)
    → AreDistinct out
    → is_seen out name ≡ false
    → AreDistinct (out ++ (name ∷ []))
AreDistinct-snoc [] name h e = (tt, tt)
AreDistinct-snoc (o ∷ out) name h e = (
  All-snoc (λ other. other ≢ o) out name h.0 (λ k. ground (arith, e, eq_iff o name, k)),
  AreDistinct-snoc out name h.1 (ground (arith, e)),
)

-- What is listed, when there is a list, are services.
abbrev IfListed : Option (List String) → Type 0
IfListed none = Unit
IfListed (some out) = AreServices out

add_parts-AreServices : (out parts : List String) → AreServices out → IfListed (add_parts out parts)
unfolding add_parts
add_parts-AreServices out [] h = h
add_parts-AreServices out (part ∷ parts) h =
    let name = normalize_service part in
    let skipped = add_parts-AreServices out parts h in
    if_cases IfListed (name == "") (λ e. skipped)
      (λ e.
        if_cases IfListed (is_supported name)
          (λ s.
            if_cases IfListed (is_seen out name) (λ k. skipped)
              (λ k. add_parts-AreServices (out ++ (name ∷ [])) parts (
                All-snoc (λ n. is_supported n ≡ true) out name h.0 s,
                AreDistinct-snoc out name h.1 k,
              )))
          (λ s. tt))

then_items-AreServices :
    (f : List String → Option (List String)) (o : Option (List String))
    → IfListed o
    → ((out : List String) → AreServices out → IfListed (f out))
    → IfListed (then_items f o)
then_items-AreServices f none h k = tt
then_items-AreServices f (some out) h k = k out h

add_items-AreServices : (raw out : List String) → AreServices out → IfListed (add_items raw out)
unfolding add_items
add_items-AreServices [] out h = h
add_items-AreServices (item ∷ raw) out h =
    then_items-AreServices (add_items raw) (add_parts out (split_commas item))
      (add_parts-AreServices out (split_commas item) h) (add_items-AreServices raw)

-- The services that are listed for a request are supported, and none of them is listed twice.
pub normalize_services-AreServices :
    (raw out : List String) → normalize_services raw ≡ some out → AreServices out
unfolding normalize_services
normalize_services-AreServices raw out e = subst IfListed e (add_items-AreServices raw [] (tt, tt))
