-- ===== src/State/History/Loop.antt =====
-- The loop of `RememberRotationFingerprint` that looks for the entry of a fingerprint.
use mathlib.Core.Option as Opt
use cfwarp_cli.Prelude.{
  to_int, ℕ, zero, suc, ◌+◌, ◌%◌, ◌^◌, ◌<◌, ◌≡◌, ◌≢◌, refl, ap, ap₂, Bool, true, false, String,
  eq_iff, Option, none, some, List, [], ◌∷◌, map, ℤ, is_positive, length, take, All, All-take,
  arith, if◌then◌else◌, tidy, tidy_idem,
}
use cfwarp_cli.State.Account.{Time}
use cfwarp_cli.State.History.{
  RotationFingerprint, RotationHistoryEntry, normalize_entry, at_least_one, same_key, touch,
  touch_first,
}
use cfwarp_cli.State.History.Novelty.{is_seen, times_seen}

abbrev pub key : RotationHistoryEntry → String × String
key e = (e.transport, e.fingerprint)

abbrev pub AreDistinct : List (String × String) → Type 0
AreDistinct [] = Unit
AreDistinct (k ∷ ks) = All (λ l. l ≢ k) ks × AreDistinct ks

-- No two entries have the same transport and fingerprint.
abbrev pub HasUniqueKeys : List RotationHistoryEntry → Type 0
HasUniqueKeys es = AreDistinct (map key es)

pub AreDistinct-take :
    (n : ℕ) (ks : List (String × String)) → AreDistinct ks → AreDistinct (take n ks)
AreDistinct-take zero ks h = tt
AreDistinct-take (suc n) [] h = tt
AreDistinct-take (suc n) (k ∷ ks) h = (All-take (λ l. l ≢ k) n ks h.0, AreDistinct-take n ks h.1)

pub map-key-take :
    (n : ℕ) (es : List RotationHistoryEntry) → map key (take n es) ≡ take n (map key es)
map-key-take zero es = refl
map-key-take (suc n) [] = refl
map-key-take (suc n) (e ∷ es) = ap (λ ks. key e ∷ ks) (map-key-take n es)

abbrev pub IsNormalEntry : RotationHistoryEntry → Type 0
IsNormalEntry e = (tidy e.transport ≡ e.transport) × (is_positive e.seen_count ≡ true)

normalize_entry_fixed : (e : RotationHistoryEntry) → IsNormalEntry e → normalize_entry e ≡ e
unfolding normalize_entry
normalize_entry_fixed e h = ground (arith, h.0, h.1)

pub map-normalize_entry_fixed :
    (es : List RotationHistoryEntry) → All IsNormalEntry es → map normalize_entry es ≡ es
map-normalize_entry_fixed [] h = refl
map-normalize_entry_fixed (e ∷ es) h =
    ap₂ ◌∷◌ (normalize_entry_fixed e h.0) (map-normalize_entry_fixed es h.1)

normalize_entry-IsNormalEntry : (e : RotationHistoryEntry) → IsNormalEntry (normalize_entry e)
unfolding normalize_entry
normalize_entry-IsNormalEntry e = (tidy_idem e.transport, ground arith)

pub map-normalize_entry-IsNormalEntry :
    (es : List RotationHistoryEntry) → All IsNormalEntry (map normalize_entry es)
map-normalize_entry-IsNormalEntry [] = tt
map-normalize_entry-IsNormalEntry (e ∷ es) =
    (normalize_entry-IsNormalEntry e, map-normalize_entry-IsNormalEntry es)

to_int-positive : (n : ℕ) → n + 1 < 2 ^ 63 → is_positive (to_int ((n + 1) % 2 ^ 64)) ≡ true
to_int-positive n h = ground arith

touch-IsNormalEntry :
    (at : Time) (e : RotationHistoryEntry)
    → at_least_one e.seen_count + 1 < 2 ^ 63
    → IsNormalEntry e
    → IsNormalEntry (touch at e)
unfolding touch
touch-IsNormalEntry at e bound h = (h.0, to_int-positive _ bound)

module _ (fp : RotationFingerprint) (at : Time) where
  -- Induction along the loop that looks for the entry of a fingerprint.
  touch_first_elim {κ} :
      (P : List RotationHistoryEntry → Option (List RotationHistoryEntry) → Type κ)
      → P [] none
      → ((e : RotationHistoryEntry) (rest : List RotationHistoryEntry)
          → same_key fp e ≡ true
          → P (e ∷ rest) (some (touch at e ∷ rest)))
      → ((e : RotationHistoryEntry) (rest : List RotationHistoryEntry)
          → same_key fp e ≡ false
          → P rest none
          → P (e ∷ rest) none)
      → ((e : RotationHistoryEntry) (rest es : List RotationHistoryEntry)
          → same_key fp e ≡ false
          → P rest (some es)
          → P (e ∷ rest) (some (e ∷ es)))
      → (es : List RotationHistoryEntry) → P es (touch_first fp at es)
  unfolding touch_first
  touch_first_elim P n f m s [] = n
  touch_first_elim P n f m s (e ∷ rest) =
      step (same_key fp e) (touch_first fp at rest) refl (touch_first_elim P n f m s rest)
    where
      step :
          (b : Bool) (later : Option (List RotationHistoryEntry))
          → same_key fp e ≡ b
          → P rest later
          → P (e ∷ rest) (if b then some (touch at e ∷ rest) else Opt.map (λ es. e ∷ es) later)
      step true later k h = f e rest k
      step false none k h = m e rest k h
      step false (some es) k h = s e rest es k h

  is_seen-same_key : (e : RotationHistoryEntry) → fp.fingerprint ≢ "" → is_seen fp e ≡ same_key fp e
  unfolding is_seen
  is_seen-same_key e h = ground (arith, eq_iff fp.fingerprint "")

  -- The loop counts the fingerprint once more, or it is in no entry.
  abbrev pub Counts : List RotationHistoryEntry → Option (List RotationHistoryEntry) → Type 0
  Counts es none = times_seen fp es ≡ 0
  Counts es (some changed) =
      times_seen fp es + 1 < 2 ^ 63 → times_seen fp changed ≡ times_seen fp es + 1

  touched_count :
      (c : ℤ)
      → at_least_one c + 1 < 2 ^ 63
      → at_least_one (to_int ((at_least_one c + 1) % 2 ^ 64)) ≡ at_least_one c + 1
  touched_count c h = ground arith

  pub touch_first-Counts :
      fp.fingerprint ≢ "" → (es : List RotationHistoryEntry) → Counts es (touch_first fp at es)
  unfolding times_seen touch
  touch_first-Counts h =
      touch_first_elim Counts refl
        (λ e rest k bound. ground (
          arith,
          is_seen-same_key e h,
          is_seen-same_key (touch at e) h,
          touched_count e.seen_count,
        ))
        (λ e rest k i. ground (arith, is_seen-same_key e h))
        (λ e rest es k i bound. ground (arith, is_seen-same_key e h, i))

  abbrev pub Measures : List RotationHistoryEntry → Option (List RotationHistoryEntry) → Type 0
  Measures es none = Unit
  Measures es (some changed) = length changed ≡ length es

  pub touch_first-Measures : (es : List RotationHistoryEntry) → Measures es (touch_first fp at es)
  touch_first-Measures =
      touch_first_elim Measures tt (λ e rest k. refl) (λ e rest k i. tt)
        (λ e rest es k i. omega (arith, i))

  -- The loop changes no key, or no entry has the fingerprint's.
  abbrev pub Keeps : List RotationHistoryEntry → Option (List RotationHistoryEntry) → Type 0
  Keeps es none = All (λ k. k ≢ (fp.transport, fp.fingerprint)) (map key es)
  Keeps es (some changed) = map key changed ≡ map key es

  pub touch_first-Keeps : (es : List RotationHistoryEntry) → Keeps es (touch_first fp at es)
  unfolding touch
  touch_first-Keeps =
      touch_first_elim Keeps tt (λ e rest k. refl)
        (λ e rest k i. (
          λ h. ground (
            arith,
            k,
            eq_iff e.transport fp.transport,
            eq_iff e.fingerprint fp.fingerprint,
            ap (λ x. x.0) h,
            ap (λ x. x.1) h,
          ),
          i,
        ))
        (λ e rest es k i. ap (λ ks. key e ∷ ks) i)

  -- Entries stay as `Normalize` leaves them.
  abbrev pub Normalizes : List RotationHistoryEntry → Option (List RotationHistoryEntry) → Type 0
  Normalizes es none = Unit
  Normalizes es (some changed) =
      times_seen fp es + 1 < 2 ^ 63 → All IsNormalEntry es → All IsNormalEntry changed

  pub touch_first-Normalizes :
      fp.fingerprint ≢ "" → (es : List RotationHistoryEntry) → Normalizes es (touch_first fp at es)
  unfolding times_seen
  touch_first-Normalizes h =
      touch_first_elim Normalizes tt
        (λ e rest k bound n.
          (touch-IsNormalEntry at e (ground (arith, is_seen-same_key e h)) n.0, n.1))
        (λ e rest k i. tt)
        (λ e rest es k i bound n. (n.0, i (ground (arith, is_seen-same_key e h)) n.1))
