-- ===== src/Opensea/Slugs.antt =====
-- What a slug of `parse_input` can hold (mint-sniper/src/opensea.rs): it becomes a segment of the path of a request.
use text.Mathlib.Text.{find?}
use Prim.Native.String.{String, slice, len, [], ◌∷◌}
use Prim.Native.Char.{code}
use seasniper.Common.{
  ℕ, Bool, true, false, Option, some, ◌+◌, ◌||◌, ◌≡◌, refl, arith, trim, trim_start, Option-cases,
  trim_end, is_empty, if◌then◌else◌, Bool-cases, inl, inr,
}
use seasniper.Opensea.{
  open_sea_slug, is_separator, before_separator, slug_if_any, slug_of, parse_input,
}

abbrev pub has_separator : String → Bool
has_separator [] = false
has_separator (c ∷ s) = is_separator (code c) || has_separator s

has_separator-if :
    (b : Bool) (s : String) → has_separator s ≡ false → has_separator (if b then [] else s) ≡ false
has_separator-if true s e = refl
has_separator-if false s e = e

before_separator-has_separator : (s : String) → has_separator (before_separator s) ≡ false
unfolding before_separator
before_separator-has_separator [] = refl
before_separator-has_separator (c ∷ s) = elim (Bool-cases (is_separator (code c))) [
  | inl sep ↦ rw sep refl
  | inr other ↦ rw other (ground (arith, other, before_separator-has_separator s))
]

trim_start-has_separator :
    (s : String) → has_separator s ≡ false → has_separator (trim_start s) ≡ false
unfolding trim_start
trim_start-has_separator [] e = refl
trim_start-has_separator (c ∷ s) e = ground (arith, trim_start-has_separator s)

trim_end-has_separator : (s : String) → has_separator s ≡ false → has_separator (trim_end s) ≡ false
unfolding trim_end
trim_end-has_separator [] e = refl
trim_end-has_separator (c ∷ s) e =
    has_separator-if _ (c ∷ trim_end s) (ground (arith, trim_end-has_separator s))

trim-has_separator : (s : String) → has_separator s ≡ false → has_separator (trim s) ≡ false
unfolding trim
trim-has_separator s e = trim_start-has_separator (trim_end s) (trim_end-has_separator s e)

-- A slug that is one segment of a path: not empty, with nothing that ends the segment.
pub record IsSegment (slug : String) : Type 0 where
  pub filled : is_empty slug ≡ false
  pub whole : has_separator slug ≡ false

slug_if_any-IsSegment :
    (text slug : String)
    → has_separator text ≡ false
    → slug_if_any text ≡ some (open_sea_slug slug)
    → IsSegment slug
slug_if_any-IsSegment text slug e found = record { filled = ground arith; whole = ground arith }

slug_of-IsSegment : (text slug : String) → slug_of text ≡ some (open_sea_slug slug) → IsSegment slug
unfolding slug_of
slug_of-IsSegment text slug found = elim (Option-cases (find? text "/collection/")) [
  | inl missing ↦ ground arith
  | inr (idx, hit) ↦
      slug_if_any-IsSegment (trim (before_separator (slice text (idx + 12) (len text)))) slug
        (trim-has_separator _ (before_separator-has_separator _)) (ground arith)
]

-- A slug that `parse_input` takes from a pasted text, whatever the text and the reading of addresses, is
-- not empty and has no '/', '?' or '#'.
pub parse_input-IsSegment :
    (parse_address : String → Option ℕ) (input slug : String)
    → parse_input parse_address input ≡ some (open_sea_slug slug)
    → IsSegment slug
unfolding parse_input
parse_input-IsSegment parse_address input slug found = elim (Bool-cases (is_empty (trim input))) [
  | inl blank ↦ ground arith
  | inr filled ↦ slug_of-IsSegment (trim input) slug (ground arith)
]
