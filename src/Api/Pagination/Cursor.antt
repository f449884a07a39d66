-- ===== src/Api/Pagination/Cursor.antt =====
-- A cursor is read as it was written.
use text.Mathlib.Text.{◌==◌ as str_eq}
use text.Mathlib.TextEquality.{eq_iff}
use Prim.Native.String.append
use Prim.Native.String.{[] as empty_str, ◌∷◌ as cons_str, ◌++◌ as append_str}
use Prim.Native.Char.{Char, code}
use theclub_api.Prelude.{
  ℕ, String, ◌≡◌, refl, sym, ap, ◌∙◌, ◌==◌, true, false, Bool-cases, inl, inr, none, some,
}
use theclub_api.Result.{ok}
use theclub_api.World.{World}
use theclub_api.Repositories.Listing.{Place}
use theclub_api.Api.Pagination.{
  Codec, has_bar, add_char, split_two, encode_cursor, decode_cursor, decode_optional,
}

-- What Python documents of the texts of times, ids and base64.
pub record CodecLaws (w : World) (codec : Codec) : Type 0 where
  pub time_back : (t : ℕ) → codec.fromisoformat (codec.isoformat t) ≡ some t
  pub time_bar : (t : ℕ) → has_bar (codec.isoformat t) ≡ false
  pub uuid_back : (id : ℕ) → w.parse_uuid (w.show_uuid id) ≡ some id
  pub uuid_bar : (id : ℕ) → has_bar (w.show_uuid id) ≡ false
  pub base64_back : (s : String) → codec.b64decode (codec.b64encode s) ≡ some s
  pub base64_given : (s : String) → str_eq s "" ≡ false → str_eq (codec.b64encode s) "" ≡ false

abbrev bar : Char
bar = "|"

bar_first : (b : String) → append_str "|" b ≡ cons_str bar b
bar_first b = append.cons bar "" b ∙ ap (cons_str bar) (append.nil b)

split_empty : split_two "" ≡ none
unfolding split_two
split_empty = refl

split_two-append :
    (a b : String)
    → has_bar a ≡ false
    → has_bar b ≡ false
    → split_two (append_str a (append_str "|" b)) ≡ some (a, b)
unfolding split_two has_bar
split_two-append empty_str b h k =
    ap split_two (append.nil (append_str "|" b) ∙ bar_first b) ∙ rw k refl
split_two-append (cons_str c s) b h k =
    ap split_two (append.cons c s (append_str "|" b)) ∙ elim (Bool-cases (code c == 124)) [
      | inl bar ↦ let bad : true ≡ false = rw bar at h in absurd (cc bad)
      | inr other ↦ rw other (ap (add_char c) (split_two-append s b (rw other at h) k))
    ]

module _ (w : World) (codec : Codec) (laws : CodecLaws w codec) where
  split_raw :
      (t id : ℕ)
      → split_two (append_str (codec.isoformat t) (append_str "|" (w.show_uuid id)))
        ≡ some (codec.isoformat t, w.show_uuid id)
  split_raw t id =
      split_two-append (codec.isoformat t) (w.show_uuid id) (laws.time_bar t) (laws.uuid_bar id)

  -- A cursor that was written for a time and an id is read as that time and that id.
  pub decode_cursor-encode_cursor :
      (place : Place) → decode_cursor w codec (encode_cursor w codec place) ≡ ok place
  unfolding decode_cursor encode_cursor
  decode_cursor-encode_cursor (t, id) =
      rw
        (
          laws.base64_back (append_str (codec.isoformat t) (append_str "|" (w.show_uuid id))),
          split_raw t id,
          laws.time_back t,
          laws.uuid_back id,
        )
        refl

  -- A written cursor is not empty.
  encode_cursor-given : (place : Place) → str_eq (encode_cursor w codec place) "" ≡ false
  unfolding encode_cursor
  encode_cursor-given (t, id) =
      let text = append_str (codec.isoformat t) (append_str "|" (w.show_uuid id)) in
      laws.base64_given text (elim (Bool-cases (str_eq text "")) [
        | inl nothing ↦
            let bad : none ≡ some (codec.isoformat t, w.show_uuid id) =
              sym split_empty ∙ ap split_two (sym ((eq_iff text "").0 nothing)) ∙ split_raw t id in
            absurd (cc bad)
        | inr given ↦ given
      ])

  pub decode_optional-encode_cursor :
      (place : Place)
      → decode_optional w codec (some (encode_cursor w codec place)) ≡ ok (some place)
  unfolding decode_optional
  decode_optional-encode_cursor place =
      rw (encode_cursor-given place, decode_cursor-encode_cursor place) refl
