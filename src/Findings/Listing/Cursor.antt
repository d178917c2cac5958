-- ===== src/Findings/Listing/Cursor.antt =====
-- findings/service.go: a cursor decodes to the row that it was made of.
use anchorix.Prelude.{ℕ, ◌≡◌, refl, some, false, [], ◌∷◌, ◌++◌, ◌==◌, ok, All}
use anchorix.Prelude.Text.{Text, is_empty}
use anchorix.Findings.Listing.{
  separator, Codec, split_pair, encode_finding_cursor, decode_parts, decode_finding_cursor,
}

split_pair-append :
    (a b : Text)
    → All (λ c. (c == separator) ≡ false) a
    → split_pair (a ++ separator ∷ b) ≡ some (a, b)
unfolding split_pair
split_pair-append [] b h = refl
split_pair-append (c ∷ a) b h = rw h.0 (rw (split_pair-append a b h.1) refl)

is_empty-append : (a : Text) (c : ℕ) (b : Text) → is_empty (a ++ c ∷ b) ≡ false
unfolding is_empty
is_empty-append [] c b = refl
is_empty-append (x ∷ a) c b = refl

-- A cursor that was made of an instant and an id that is not empty decodes to them, also where the
-- id has the separator in it.
pub decode-encode_finding_cursor :
    (codec : Codec) (at : ℕ) (id : Text)
    → is_empty id ≡ false
    → decode_finding_cursor codec (encode_finding_cursor codec at id) ≡ ok (at, id)
unfolding decode_finding_cursor encode_finding_cursor decode_parts
decode-encode_finding_cursor codec at id named =
    rw (codec.encode_empty _ (is_empty-append (codec.format at) separator id)) (
      rw (codec.decode-encode (codec.format at ++ separator ∷ id)) (
        rw (split_pair-append (codec.format at) id (codec.format_plain at))
          (rw (codec.format_empty at) (rw named (rw (codec.parse-format at) refl)))))

pub encode_finding_cursor_empty :
    (codec : Codec) (at : ℕ) (id : Text) → is_empty (encode_finding_cursor codec at id) ≡ false
unfolding encode_finding_cursor
encode_finding_cursor_empty codec at id =
    codec.encode_empty _ (is_empty-append (codec.format at) separator id)
