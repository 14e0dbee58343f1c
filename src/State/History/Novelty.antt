-- ===== src/State/History/Novelty.antt =====
-- What `EvaluateRotationNovelty` reads off a history, said entry by entry.
use cfwarp_cli.Prelude.{
  to_int, ℕ, ◌+◌, ◌^◌, ◌<◌, ◌≡◌, refl, sym, Bool, true, false, not, ◌&&◌, ◌||◌, String, ◌==◌, List,
  [], ◌∷◌, ℤ, pos, negsuc, any, is_positive, is_zero, length, arith, if◌then◌else◌,
}
use cfwarp_cli.State.History.{
  RotationFingerprint, RotationHistoryEntry, RotationHistory, RotationNovelty, Tally, normalize,
  at_least_one, no_tally, tally_entry, tally, qualify, evaluate_rotation_novelty,
  normalize_rotation_distinctness,
}

-- An entry of the same address set, and entries of the same IPv4 or IPv6 address.
unfoldable pub is_seen : RotationFingerprint → RotationHistoryEntry → Bool
is_seen fp e =
    e.transport == fp.transport && (not (fp.fingerprint == "") && e.fingerprint == fp.fingerprint)

unfoldable pub is_seen_ipv4 : RotationFingerprint → RotationHistoryEntry → Bool
is_seen_ipv4 fp e =
    e.transport == fp.transport && (not (fp.ipv4_hash == "") && e.ipv4_hash == fp.ipv4_hash)

unfoldable pub is_seen_ipv6 : RotationFingerprint → RotationHistoryEntry → Bool
is_seen_ipv6 fp e =
    e.transport == fp.transport && (not (fp.ipv6_hash == "") && e.ipv6_hash == fp.ipv6_hash)

-- How often the entries saw the address set, without wrap-around.
unfoldable pub times_seen : RotationFingerprint → List RotationHistoryEntry → ℕ
times_seen fp [] = 0
times_seen fp (e ∷ rest) =
    (if is_seen fp e then at_least_one e.seen_count else 0) + times_seen fp rest

at_least_one-positive : (c : ℤ) → 0 < at_least_one c
at_least_one-positive (pos n) = ground arith
at_least_one-positive (negsuc n) = omega arith

tally_entry-ipv4 :
    (fp : RotationFingerprint) (e : RotationHistoryEntry) (t : Tally)
    → (tally_entry fp e t).seen_ipv4 ≡ is_seen_ipv4 fp e || t.seen_ipv4
unfolding tally_entry is_seen_ipv4
tally_entry-ipv4 fp e t = ground arith

tally_entry-ipv6 :
    (fp : RotationFingerprint) (e : RotationHistoryEntry) (t : Tally)
    → (tally_entry fp e t).seen_ipv6 ≡ is_seen_ipv6 fp e || t.seen_ipv6
unfolding tally_entry is_seen_ipv6
tally_entry-ipv6 fp e t = ground arith

tally_entry-count :
    (fp : RotationFingerprint) (e : RotationHistoryEntry) (t : Tally)
    → t.seen_count + (if is_seen fp e then at_least_one e.seen_count else 0) < 2 ^ 63
    → (tally_entry fp e t).seen_count
      ≡ t.seen_count + (if is_seen fp e then at_least_one e.seen_count else 0)
unfolding tally_entry is_seen
tally_entry-count fp e t h = ground arith

tally-ipv4 :
    (fp : RotationFingerprint) (es : List RotationHistoryEntry) (t : Tally)
    → (tally fp es t).seen_ipv4 ≡ any (is_seen_ipv4 fp) es || t.seen_ipv4
unfolding tally
tally-ipv4 fp [] t = refl
tally-ipv4 fp (e ∷ es) t =
    ground (arith, tally-ipv4 fp es (tally_entry fp e t), tally_entry-ipv4 fp e t)

tally-ipv6 :
    (fp : RotationFingerprint) (es : List RotationHistoryEntry) (t : Tally)
    → (tally fp es t).seen_ipv6 ≡ any (is_seen_ipv6 fp) es || t.seen_ipv6
unfolding tally
tally-ipv6 fp [] t = refl
tally-ipv6 fp (e ∷ es) t =
    ground (arith, tally-ipv6 fp es (tally_entry fp e t), tally_entry-ipv6 fp e t)

pub tally-count :
    (fp : RotationFingerprint) (es : List RotationHistoryEntry) (t : Tally)
    → t.seen_count + times_seen fp es < 2 ^ 63
    → (tally fp es t).seen_count ≡ t.seen_count + times_seen fp es
unfolding tally times_seen
tally-count fp [] t h = omega arith
tally-count fp (e ∷ es) t h =
    ground (arith, tally_entry-count fp e t, tally-count fp es (tally_entry fp e t))

pub times_seen-any :
    (fp : RotationFingerprint) (es : List RotationHistoryEntry)
    → any (is_seen fp) es ≡ is_positive (pos (times_seen fp es))
unfolding times_seen
times_seen-any fp [] = refl
times_seen-any fp (e ∷ es) =
    ground (arith, times_seen-any fp es, at_least_one-positive e.seen_count)

pub any_or_false : (b : Bool) → b || false ≡ b
any_or_false true = refl
any_or_false false = refl

-- The novelty of a fingerprint as the entries show it.
abbrev pub novelty_of : RotationHistory → RotationFingerprint → String → RotationNovelty
novelty_of h fp distinctness =
    let reused = any (is_seen fp) h.entries in
    let new_ipv4 = not (fp.ipv4_hash == "") && not (any (is_seen_ipv4 fp) h.entries) in
    let new_ipv6 = not (fp.ipv6_hash == "") && not (any (is_seen_ipv6 fp) h.entries) in
    record {
      transport = fp.transport;
      distinctness = distinctness;
      fingerprint = fp.fingerprint;
      history_entries = length h.entries;
      seen_count = pos (times_seen fp h.entries);
      exact_reuse = reused;
      new_fingerprint = not reused;
      new_ipv4 = new_ipv4;
      new_ipv6 = new_ipv6;
      qualifies = qualify distinctness (not reused) new_ipv4 new_ipv6;
    }

tally-no_tally :
    (fp : RotationFingerprint) (es : List RotationHistoryEntry)
    → times_seen fp es < 2 ^ 63
    → (tally fp es no_tally).seen_count ≡ times_seen fp es
tally-no_tally fp es h = omega (arith, tally-count fp es no_tally (omega arith))

to_int-small : (w : ℕ) → w < 2 ^ 63 → to_int w ≡ pos w
to_int-small w h = ground arith

not_positive : (n : ℕ) → is_zero (pos n) ≡ not (is_positive (pos n))
not_positive n = ground arith

-- While the counts of a fingerprint add up to less than 2^63, its novelty is the one that the
-- entries of the normalised history show: reuse is an entry of the same transport and fingerprint,
-- a new address one that no entry of the transport has.
pub evaluate_rotation_novelty_lem :
    (h : RotationHistory) (fp : RotationFingerprint) (distinctness : String)
    → times_seen fp (normalize h).entries < 2 ^ 63
    → evaluate_rotation_novelty h fp distinctness
      ≡ novelty_of (normalize h) fp (normalize_rotation_distinctness distinctness)
unfolding evaluate_rotation_novelty
evaluate_rotation_novelty_lem h fp d bound =
    let es = (normalize h).entries in
    rw
      (
        tally-no_tally fp es bound,
        tally-ipv4 fp es no_tally,
        tally-ipv6 fp es no_tally,
        to_int-small _ bound,
        not_positive (times_seen fp es),
        sym (times_seen-any fp es),
        any_or_false (any (is_seen_ipv4 fp) es),
        any_or_false (any (is_seen_ipv6 fp) es),
      )
      refl
