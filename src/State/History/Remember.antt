-- ===== src/State/History/Remember.antt =====
-- What `RememberRotationFingerprint` does to a history.
use cfwarp_cli.Prelude.{
  ℕ, zero, suc, ◌+◌, ◌^◌, ◌≤◌, ◌<◌, ◌≡◌, ◌≢◌, refl, ap, ◌∙◌, true, false, String, eq_iff, eq_refl,
  Option, none, some, List, [], ◌∷◌, map, ℤ, pos, negsuc, length, take, length-take, All, All-take,
  arith, tidy,
}
use cfwarp_cli.State.Account.{Time}
use cfwarp_cli.State.History.{
  RotationFingerprint, RotationHistoryEntry, RotationHistory, normalize_entry, normalize, new_entry,
  history_limit, trim_entries, keep_or_add, remember_rotation_fingerprint,
  evaluate_rotation_novelty,
}
use cfwarp_cli.State.History.Novelty.{
  is_seen, times_seen, evaluate_rotation_novelty_lem, times_seen-any,
}
use cfwarp_cli.State.History.Loop.{
  key, HasUniqueKeys, IsNormalEntry, Counts, Measures, Keeps, Normalizes, AreDistinct-take,
  map-key-take, map-normalize_entry_fixed, map-normalize_entry-IsNormalEntry, touch_first-Counts,
  touch_first-Measures, touch_first-Keeps, touch_first-Normalizes,
}

times_seen-take :
    (fp : RotationFingerprint) (n : ℕ) (es : List RotationHistoryEntry)
    → times_seen fp es ≡ 0
    → times_seen fp (take n es) ≡ 0
unfolding times_seen
times_seen-take fp zero es h = refl
times_seen-take fp (suc n) [] h = refl
times_seen-take fp (suc n) (e ∷ es) h = ground (arith, times_seen-take fp n es)

length-trim_entries : (n : ℕ) (es : List RotationHistoryEntry) → length (trim_entries n es) ≤ n
length-trim_entries n es = ground (arith, length-take n es)

take_all : (n : ℕ) (es : List RotationHistoryEntry) → length es ≤ n → take n es ≡ es
take_all zero [] h = refl
take_all (suc n) [] h = refl
take_all zero (e ∷ es) h = ground (arith, h)
take_all (suc n) (e ∷ es) h = ap (λ l. e ∷ l) (take_all n es (omega (arith, h)))

trim_entries-take : (n : ℕ) (es : List RotationHistoryEntry) → trim_entries n es ≡ take n es
trim_entries-take n es = ground (arith, take_all n es)

history_limit-positive : (m : ℤ) → 0 < history_limit m
unfolding history_limit
history_limit-positive (pos n) = ground arith
history_limit-positive (negsuc n) = omega arith

times_seen-added :
    (fp : RotationFingerprint) (at : Time) (n : ℕ) (es : List RotationHistoryEntry)
    → 0 < n
    → fp.fingerprint ≢ ""
    → times_seen fp es ≡ 0
    → times_seen fp (take n (new_entry fp at ∷ es)) ≡ 1
unfolding times_seen new_entry is_seen
times_seen-added fp at zero es p f h = ground (arith, p)
times_seen-added fp at (suc n) es p f h = ground (
  arith,
  eq_iff fp.fingerprint "",
  eq_refl fp.transport,
  eq_refl fp.fingerprint,
  times_seen-take fp n es h,
)

-- The entries afterwards, from what the loop returns for them.
module _ (fp : RotationFingerprint) (at : Time) (n : ℕ) (es : List RotationHistoryEntry) where
  abbrev remembered : Option (List RotationHistoryEntry) → List RotationHistoryEntry
  remembered o = keep_or_add o (trim_entries n (new_entry fp at ∷ es))

  remembered-length :
      (o : Option (List RotationHistoryEntry))
      → Measures fp at es o
      → length es ≤ n
      → length (remembered o) ≤ n
  remembered-length none m h = length-trim_entries n (new_entry fp at ∷ es)
  remembered-length (some changed) m h = omega (arith, m, h)

  remembered-HasUniqueKeys :
      (o : Option (List RotationHistoryEntry))
      → Keeps fp at es o
      → HasUniqueKeys es
      → HasUniqueKeys (remembered o)
  unfolding new_entry
  remembered-HasUniqueKeys none k h =
      rw (trim_entries-take n (new_entry fp at ∷ es), map-key-take n (new_entry fp at ∷ es))
        (AreDistinct-take n (map key (new_entry fp at ∷ es)) (k, h))
  remembered-HasUniqueKeys (some changed) k h = rw k h

  remembered-IsNormalEntry :
      (o : Option (List RotationHistoryEntry))
      → Normalizes fp at es o
      → tidy fp.transport ≡ fp.transport
      → times_seen fp es + 1 < 2 ^ 63
      → All IsNormalEntry es
      → All IsNormalEntry (remembered o)
  unfolding new_entry
  remembered-IsNormalEntry none k t b h =
      rw (trim_entries-take n (new_entry fp at ∷ es))
        (All-take IsNormalEntry n (new_entry fp at ∷ es) ((t, refl), h))
  remembered-IsNormalEntry (some changed) k t b h = k b h

  remembered-times_seen :
      (o : Option (List RotationHistoryEntry))
      → Counts fp at es o
      → 0 < n
      → fp.fingerprint ≢ ""
      → times_seen fp es + 1 < 2 ^ 63
      → times_seen fp (remembered o) ≡ times_seen fp es + 1
  unfolding times_seen new_entry
  remembered-times_seen none k p f b =
      rw (trim_entries-take n (new_entry fp at ∷ es))
        (omega (arith, times_seen-added fp at n es p f k, k))
  remembered-times_seen (some changed) k p f b = k b

-- A memory of at most `n` entries: tidy transports, positive counts, one entry a fingerprint.
pub record IsMemory (n : ℕ) (h : RotationHistory) : Type 0 where
  pub normal : All IsNormalEntry h.entries
  pub keyed : HasUniqueKeys h.entries
  pub bounded : length h.entries ≤ n

module _ (now : Time) (h : RotationHistory) (fp : RotationFingerprint) (at : Time)
    (max_entries : ℤ) where
  -- In a history whose entries have tidy transports and positive counts, one entry for each fingerprint
  -- and no more entries than the limit, remembering a fingerprint keeps all of this, as long as the
  -- fingerprint is not empty, its transport is tidy and its count does not reach 2^63.
  pub remember_rotation_fingerprint-IsMemory :
      tidy fp.transport ≡ fp.transport
      → fp.fingerprint ≢ ""
      → times_seen fp h.entries + 1 < 2 ^ 63
      → IsMemory (history_limit max_entries) h
      → IsMemory (history_limit max_entries) (remember_rotation_fingerprint now h fp at max_entries)
  unfolding remember_rotation_fingerprint normalize
  remember_rotation_fingerprint-IsMemory t f b m =
      rw (map-normalize_entry_fixed h.entries m.normal) (record {
        normal =
            remembered-IsNormalEntry fp _ _ h.entries _ (touch_first-Normalizes fp _ f h.entries) t
              b m.normal;
        keyed =
            remembered-HasUniqueKeys fp _ _ h.entries _ (touch_first-Keeps fp _ h.entries) m.keyed;
        bounded =
            remembered-length fp _ _ h.entries _ (touch_first-Measures fp _ h.entries) m.bounded;
      })

  -- The entries afterwards are normal, and count one more sighting.
  remember_entries :
      tidy fp.transport ≡ fp.transport
      → fp.fingerprint ≢ ""
      → times_seen fp (normalize h).entries + 1 < 2 ^ 63
      → let r = remember_rotation_fingerprint now h fp at max_entries in
        ((normalize r).entries ≡ r.entries)
        × (times_seen fp r.entries ≡ times_seen fp (normalize h).entries + 1)
  unfolding remember_rotation_fingerprint normalize
  remember_entries t f b =
      let es = map normalize_entry h.entries in
      (
        map-normalize_entry_fixed _ (
            remembered-IsNormalEntry fp _ _ es _ (touch_first-Normalizes fp _ f es) t b
              (map-normalize_entry-IsNormalEntry h.entries)),
        remembered-times_seen fp _ _ es _ (touch_first-Counts fp _ f es)
            (history_limit-positive max_entries) f b,
      )

  -- A fingerprint that is not empty, whose transport is in lower case without white space around it, and
  -- that was seen fewer than 2^63 - 1 times in the history, is reused once it is remembered: the next
  -- evaluation counts one more sighting, whatever was trimmed, and does not call it new.
  pub remember-evaluate :
      (distinctness : String)
      → tidy fp.transport ≡ fp.transport
      → fp.fingerprint ≢ ""
      → times_seen fp (normalize h).entries + 1 < 2 ^ 63
      → let r =
          evaluate_rotation_novelty
            (remember_rotation_fingerprint now h fp at max_entries)
            fp
            distinctness in
        (r.seen_count ≡ pos (times_seen fp (normalize h).entries + 1))
        × (r.exact_reuse ≡ true)
        × (r.new_fingerprint ≡ false)
  remember-evaluate d t f b =
      let r = remember_rotation_fingerprint now h fp at max_entries in
      let k = remember_entries t f b in
      let c = ap (times_seen fp) k.0 ∙ k.1 in
      rw (evaluate_rotation_novelty_lem r fp d (rw c b), times_seen-any fp (normalize r).entries, c)
        (refl, ground arith, ground arith)
