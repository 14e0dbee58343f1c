-- ===== src/RunNative/Announced.antt =====
-- The endpoint that the tunnel tells of, as the tracker of cmd/native_runtime.go reads it.
use Prim.Native.Char.{Char}
use Prim.Native.String.{String, [], ◌∷◌, ◌++◌}
use text.Mathlib.TextLemmas.{nil-append, cons-append, append_assoc}
use mathlib.Core.List.{List}
use cfwarp_cli.Prelude.{◌≡◌, ◌≢◌, refl, ap, sym, ◌∙◌, Bool, false, eq_iff, arith}
use cfwarp_cli.Prelude.Lists.{prefixed, no_items}
use cfwarp_cli.Prelude.Prefix.{after_prefix, after_prefix-append}
use cfwarp_cli.Prelude.Text.{is_space, space_code}
use cfwarp_cli.State.Account.{Time}
use cfwarp_cli.State.Runtime.Laws.{normalize-selected}
use cfwarp_cli.Masque.Endpoint.{endpoint_message, endpoint_selected}
use cfwarp_cli.RunNative.{RuntimeTracker, update, note_event, follow_event, record_event}
use cfwarp_cli.RunNative.Fields.{word_before, leading_word, fields, first_with, parse_event_field}

-- No white space in a text.
abbrev pub NoSpaces : String → Type 0
NoSpaces [] = Unit
NoSpaces (c ∷ s) = (is_space c ≡ false) × NoSpaces s

append-NoSpaces : (s t : String) → NoSpaces s → NoSpaces t → NoSpaces (s ++ t)
append-NoSpaces [] t h k = rw (nil-append t) k
append-NoSpaces (c ∷ s) t (h, hs) k = rw (cons-append c s t) (h, append-NoSpaces s t hs k)

leading_word-space : (s : String) → leading_word (" " ++ s) ≡ ("", fields s)
unfolding leading_word fields is_space
leading_word-space s = rw (cons-append " " [] s, nil-append s) refl

leading_word-append : (w s : String) → NoSpaces w → leading_word (w ++ (" " ++ s)) ≡ (w, fields s)
unfolding leading_word
leading_word-append [] s h = rw (nil-append (" " ++ s)) (leading_word-space s)
leading_word-append (c ∷ w) s (h, hs) =
    rw (cons-append c w (" " ++ s), h, leading_word-append w s hs) refl

leading_word_all : (w : String) → NoSpaces w → leading_word w ≡ (w, no_items)
unfolding leading_word
leading_word_all [] h = refl
leading_word_all (c ∷ w) (h, hs) = rw (h, leading_word_all w hs) refl

word_before-given :
    (w : String) (rest : List String) → w ≢ "" → word_before (w, rest) ≡ prefixed w rest
word_before-given w rest h = ground (arith, eq_iff w "", h)

fields-append :
    (w s : String) → w ≢ "" → NoSpaces w → fields (w ++ (" " ++ s)) ≡ prefixed w (fields s)
unfolding fields
fields-append w s given h =
    ap word_before (leading_word-append w s h) ∙ word_before-given w (fields s) given

fields_all : (w : String) → w ≢ "" → NoSpaces w → fields w ≡ prefixed w no_items
unfolding fields
fields_all w given h = ap word_before (leading_word_all w h) ∙ word_before-given w no_items given

regroup :
    (m p e f a family addr : String)
    → (m ++ (p ++ (e ++ (p ++ f)))) ++ (family ++ ((p ++ a) ++ addr))
      ≡ m ++ (p ++ (e ++ (p ++ ((f ++ family) ++ (p ++ (a ++ addr))))))
regroup m p e f a family addr = simp append_assoc

endpoint_message_words :
    (family addr : String)
    → endpoint_message family addr
      ≡ "MASQUE"
        ++ (" " ++ ("endpoint" ++ (" " ++ (("family=" ++ family) ++ (" " ++ ("addr=" ++ addr))))))
unfolding endpoint_message
endpoint_message_words family addr = regroup "MASQUE" " " "endpoint" "family=" "addr=" family addr

-- The words that every such message has.
fixed_words : NoSpaces "MASQUE" × NoSpaces "endpoint" × NoSpaces "family=" × NoSpaces "addr="
unfolding is_space space_code
fixed_words = (
  (refl, (refl, (refl, (refl, (refl, (refl, tt)))))),
  (refl, (refl, (refl, (refl, (refl, (refl, (refl, (refl, tt)))))))),
  (refl, (refl, (refl, (refl, (refl, (refl, (refl, tt))))))),
  (refl, (refl, (refl, (refl, (refl, tt))))),
)

append-ne-nil : (c : Char) (s t : String) → (c ∷ s) ++ t ≢ ""
append-ne-nil c s t e = cc (sym (cons-append c s t) ∙ e)

module _ (family addr : String) (h : NoSpaces family) (k : NoSpaces addr) where
  fields-endpoint_message :
      fields (endpoint_message family addr)
      ≡ prefixed "MASQUE" (
          prefixed "endpoint"
            (prefixed ("family=" ++ family) (prefixed ("addr=" ++ addr) no_items)))
  fields-endpoint_message =
      let (masque, endpoint, family_key, addr_key) = fixed_words in
      let last =
        fields_all ("addr=" ++ addr) (append-ne-nil "a" "ddr=" addr)
          (append-NoSpaces "addr=" addr addr_key k) in
      let third =
        fields-append ("family=" ++ family) ("addr=" ++ addr) (append-ne-nil "f" "amily=" family)
          (append-NoSpaces "family=" family family_key h) in
      let second =
        fields-append "endpoint" (("family=" ++ family) ++ (" " ++ ("addr=" ++ addr)))
          (λ e. ground (arith, eq_iff "endpoint" "", e)) endpoint in
      let first =
        fields-append "MASQUE"
          ("endpoint" ++ (" " ++ (("family=" ++ family) ++ (" " ++ ("addr=" ++ addr)))))
          (λ e. ground (arith, eq_iff "MASQUE" "", e)) masque in
      ap fields (endpoint_message_words family addr)
      ∙ first
      ∙ ap (prefixed "MASQUE")
          (second ∙ ap (prefixed "endpoint") (third ∙ ap (prefixed ("family=" ++ family)) last))

  parse-family : parse_event_field (endpoint_message family addr) "family" ≡ family
  unfolding parse_event_field first_with after_prefix
  parse-family = rw (fields-endpoint_message, after_prefix-append "family=" family) refl

  parse-addr : parse_event_field (endpoint_message family addr) "addr" ≡ addr
  unfolding parse_event_field first_with after_prefix
  parse-addr =
      rw
        (fields-endpoint_message, cons-append "f" "amily=" family, after_prefix-append "addr=" addr)
        refl

  -- The event by which the tunnel tells of its endpoint reaches the state: the tracker keeps the family
  -- and the address that the event's text was made from, as long as neither has white space in it.
  pub record_event-endpoint_selected :
      (writes : Bool) (now : Time) (t : RuntimeTracker)
      → ((record_event writes (endpoint_selected now family addr) t).rt.selected_address_fam
          ≡ family)
        × ((record_event writes (endpoint_selected now family addr) t).rt.selected_endpoint ≡ addr)
  unfolding record_event update follow_event
  record_event-endpoint_selected writes now t =
      let (fam, endpoint) = normalize-selected (
        follow_event (endpoint_selected now family addr)
          (note_event (endpoint_selected now family addr) t.rt)) in
      (fam ∙ parse-family, endpoint ∙ parse-addr)
