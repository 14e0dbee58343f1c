-- ===== src/State/Store/Refinement.antt =====
-- What a write leaves on the disk, at its end and wherever it is cut off.
use Prim.Native.String.{◌++◌, len}
use text.Mathlib.TextPositions.{len-append}
use cfwarp_cli.Prelude.{
  ◌+◌, ◌≡◌, ◌≢◌, refl, sym, ap, ◌∙◌, ◌⊎◌, inl, inr, Bool, true, false, String, eq_iff, eq_refl,
  Option, none, some, All, arith,
}
use cfwarp_cli.State.Store.{Content, absent, garbled, holds, put}
use cfwarp_cli.State.Store.Atomic.{
  Disk, Fault, no_fault, open_fails, encode_fails, close_fails, rename_fails, temporary, place,
  rename, write_secure,
}

temporary-ne : (path : String) → temporary path ≢ path
temporary-ne path e =
    let l : len (path ++ ".tmp") ≡ len path + 4 = len-append path ".tmp" in
    let m : len (path ++ ".tmp") ≡ len path = ap len e in omega (arith, l, m)

place_other :
    (p q : String) (text : Option String) (disk : Disk) → q ≢ p → place p text disk q ≡ disk q
place_other p q text disk h = ground (arith, eq_iff q p, h)

place_self : (p : String) (text : Option String) (disk : Disk) → place p text disk p ≡ text
place_self p text disk = ground (arith, eq_refl p)

module _ (prefix path text : String) (disk : Disk) where
  -- The file is the old one or the whole new one.
  abbrev pub IsWhole : Disk → Type 0
  IsWhole d = (d path ≡ disk path) ⊎ (d path ≡ some text)

  path-ne : path ≢ temporary path
  path-ne e = temporary-ne path (sym e)

  same : (t : Option String) (d : Disk) → place (temporary path) t d path ≡ d path
  same t d = place_other (temporary path) path t d path-ne

  kept :
      (t : Option String) (d : Disk)
      → d path ≡ disk path
      → place (temporary path) t d path ≡ disk path
  kept t d e = same t d ∙ e

  -- The disk with the temporary file, as it is while the write goes on.
  abbrev opened : Disk
  opened = place (temporary path) (some "") disk

  opened_kept : opened path ≡ disk path
  opened_kept = kept (some "") disk refl

  written_kept : (t : String) → place (temporary path) (some t) opened path ≡ disk path
  written_kept t = kept (some t) opened opened_kept

  removed_kept :
      (t : String)
      → place (temporary path) none (place (temporary path) (some t) opened) path ≡ disk path
  removed_kept t = kept none (place (temporary path) (some t) opened) (written_kept t)

  renamed :
      rename (temporary path) path (place (temporary path) (some text) opened) path ≡ some text
  renamed =
      let written = place (temporary path) (some text) opened in
      same none (place path (written (temporary path)) written)
      ∙ place_self path (written (temporary path)) written
      ∙ place_self (temporary path) (some text) opened

  -- However a write is cut off, the file is the old one or the whole new one.
  pub write_secure-IsWhole :
      (fault : Fault)
      → let r = write_secure fault prefix path text disk in IsWhole r.final × All IsWhole r.earlier
  unfolding write_secure
  write_secure-IsWhole no_fault =
      (inr renamed, (inl (written_kept text), (inl opened_kept, (inl refl, tt))))
  write_secure-IsWhole open_fails = (inl refl, tt)
  write_secure-IsWhole encode_fails =
      (inl (removed_kept prefix), (inl (written_kept prefix), (inl opened_kept, (inl refl, tt))))
  write_secure-IsWhole close_fails =
      (inl (removed_kept text), (inl (written_kept text), (inl opened_kept, (inl refl, tt))))
  write_secure-IsWhole rename_fails =
      (inl (removed_kept text), (inl (written_kept text), (inl opened_kept, (inl refl, tt))))

abbrev pub succeeds : Fault → Bool
succeeds no_fault = true
succeeds open_fails = false
succeeds encode_fails = false
succeeds close_fails = false
succeeds rename_fails = false

-- What a text on the disk is to a reader.
module _ {P : Type 0} (encode : P → String) (decode : String → Option P) where
  abbrev pub decoded : Option P → Content P
  decoded none = garbled
  decoded (some p) = holds p

  abbrev pub content : Option String → Content P
  content none = absent
  content (some text) = decoded (decode text)

  -- The steps of a write implement the write of a value: the file holds it if the call reports no
  -- error, and holds what it held before otherwise, for an encoding that the reader decodes.
  pub write_secure-put :
      ((p : P) → decode (encode p) ≡ some p)
      → (fault : Fault) (prefix path : String) (p : P) (disk : Disk)
      → let r = write_secure fault prefix path (encode p) disk in
        (r.success, content (r.final path)) ≡ put (succeeds fault) p (content (disk path))
  unfolding write_secure
  write_secure-put h no_fault prefix path p disk =
      ap (λ t. (true, content t)) (renamed prefix path (encode p) disk)
      ∙ ap (λ o. (true, decoded o)) (h p)
  write_secure-put h open_fails prefix path p disk = refl
  write_secure-put h encode_fails prefix path p disk =
      ap (λ t. (false, content t)) (removed_kept prefix path (encode p) disk prefix)
  write_secure-put h close_fails prefix path p disk =
      ap (λ t. (false, content t)) (removed_kept prefix path (encode p) disk (encode p))
  write_secure-put h rename_fails prefix path p disk =
      ap (λ t. (false, content t)) (removed_kept prefix path (encode p) disk (encode p))
