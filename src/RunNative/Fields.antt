-- ===== src/RunNative/Fields.antt =====
-- `parseEventField` of cmd/native_runtime.go, with `strings.Fields`, `strings.HasPrefix` and
-- `strings.TrimPrefix`.
use Prim.Native.String.{String, [], ◌∷◌, ◌++◌}
use mathlib.Core.Option.{Option, none, some}
use mathlib.Core.List.{List}
use text.Mathlib.Text.{◌==◌}
use cfwarp_cli.Prelude.Tests.{if◌then◌else◌}
use cfwarp_cli.Prelude.Lists.{prefixed, no_items}
use cfwarp_cli.Prelude.Text.{is_space}
use cfwarp_cli.Prelude.Prefix.{after_prefix}

-- A word that ended, if there is one, before the others.
abbrev pub word_before : String × List String → List String
word_before (w, rest) = if w == "" then rest else prefixed w rest

-- What stands before the first space, and the words after it.
unfoldable pub leading_word : String → String × List String
leading_word [] = ([], no_items)
leading_word (c ∷ s) =
    let r = leading_word s in if is_space c then ([], word_before r) else (c ∷ r.0, r.1)

-- `strings.Fields`.
unfoldable pub fields : String → List String
unfolding leading_word
fields s = word_before (leading_word s)

abbrev or_next : Option String → String → String
or_next none next = next
or_next (some v) next = v

-- The first of the words that has the prefix, without it.
unfoldable pub first_with : String → List String → String
unfolding after_prefix
first_with prefix List.[] = ""
first_with prefix (List.◌∷◌ part rest) = or_next (after_prefix prefix part) (first_with prefix rest)

unfoldable pub parse_event_field : String → String → String
unfolding fields first_with
parse_event_field msg key = first_with (key ++ "=") (fields msg)
