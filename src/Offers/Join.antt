-- ===== src/Offers/Join.antt =====
-- `stripOffer` undoes the joining of an offer's parts by "+" and white space.
use mathlib.Core.List.{append-nil}
use boltnd.Prelude.{
  ℕ, ◌≤◌, ◌≡◌, ◌≢◌, refl, sym, ap, ◌∙◌, false, List, [], ◌∷◌, ◌++◌, map, length, arith, Bytes, All,
  All-append, if◌then◌else◌, ◌==◌, not,
}
use boltnd.Prelude.Errors.{ok, guard, incorrect_split}
use boltnd.Prelude.Bytes.{codes}
use boltnd.Offers.{
  split_plus, is_space, trim_left, trim_right, trim_space, strip_parts, strip_offer,
}
use boltnd.Offers.Strip.{IsClean, IsSpace, check_ascii_of-All, split_plus-append}

-- A part of an offer, with the white space before and after it.
pub record Segment : Type 0 where
  pub before : Bytes
  pub body : Bytes
  pub after : Bytes

abbrev pub segment_text : Segment → Bytes
segment_text s = s.before ++ (s.body ++ s.after)

-- It may be white space alone, but it is not empty.
pub record IsSegment (s : Segment) : Type 0 where
  pub spaces_before : All IsSpace s.before
  pub clean : All IsClean s.body
  pub spaces_after : All IsSpace s.after
  pub nonempty : segment_text s ≢ []

-- A part as the format wants it: with characters of its own on both sides of each "+".
abbrev pub IsPart : Segment → Type 0
IsPart s = IsSegment s × (s.body ≢ [])

abbrev pub join : Segment → List Segment → Bytes
join s [] = segment_text s
join s (t ∷ ts) = segment_text s ++ b'+' ∷ join t ts

abbrev pub bodies : List Segment → Bytes
bodies [] = []
bodies (s ∷ ss) = s.body ++ bodies ss

not_space : (c : ℕ) → IsClean c → is_space c ≡ false
unfolding is_space
not_space c h = ground arith

not_plus : (c : ℕ) → IsSpace c → c ≢ b'+'
unfolding is_space
not_plus c h = ground arith

trim_right-spaces : (s : Bytes) → All IsSpace s → trim_right s ≡ []
unfolding trim_right
trim_right-spaces [] h = refl
trim_right-spaces (c ∷ s) h = rw (trim_right-spaces s h.1) (rw h.0)

trim_right-clean : (p s : Bytes) → All IsClean p → All IsSpace s → trim_right (p ++ s) ≡ p
unfolding trim_right
trim_right-clean [] s h k = trim_right-spaces s k
trim_right-clean (c ∷ []) s h k = rw (trim_right-spaces s k) (rw (not_space c h.0))
trim_right-clean (c ∷ d ∷ p) s h k = rw (trim_right-clean (d ∷ p) s h.1 k)

trim_left-spaces : (s t : Bytes) → All IsSpace s → trim_left (s ++ t) ≡ trim_left t
unfolding trim_left
trim_left-spaces [] t h = refl
trim_left-spaces (c ∷ s) t h = rw h.0 (trim_left-spaces s t h.1)

trim_space-segment : (s : Segment) → IsSegment s → trim_space (segment_text s) ≡ s.body
unfolding trim_space
trim_space-segment s h =
    ap trim_right (trim_left-spaces s.before (s.body ++ s.after) h.spaces_before)
    ∙ go s.body s.after h.clean h.spaces_after
  where
    go : (p s : Bytes) → All IsClean p → All IsSpace s → trim_right (trim_left (p ++ s)) ≡ p
    go [] s h k =
        ap (λ t. trim_right (trim_left t)) (sym (append-nil s))
        ∙ ap trim_right (trim_left-spaces s [] k)
    go (c ∷ p) s h k =
        ap trim_right (ap (λ b. if b then trim_left (p ++ s) else c ∷ p ++ s) (not_space c h.0))
        ∙ trim_right-clean (c ∷ p) s h k

split_plus-no_plus : (s : Bytes) → All (λ c. c ≢ b'+') s → split_plus s ≡ (s, [])
unfolding split_plus
split_plus-no_plus [] h = refl
split_plus-no_plus (c ∷ s) h = rw (split_plus-no_plus s h.1) (ground arith)

segment-no_plus : (s : Segment) → IsSegment s → All (λ c. c ≢ b'+') (segment_text s)
segment-no_plus s h =
    All-append _ s.before (s.body ++ s.after) (spaces s.before h.spaces_before)
      (All-append _ s.body s.after (cleans s.body h.clean) (spaces s.after h.spaces_after))
  where
    spaces : (t : Bytes) → All IsSpace t → All (λ c. c ≢ b'+') t
    spaces [] k = tt
    spaces (c ∷ t) k = (not_plus c k.0, spaces t k.1)

    cleans : (t : Bytes) → All IsClean t → All (λ c. c ≢ b'+') t
    cleans [] k = tt
    cleans (c ∷ t) k = (k.0.2, cleans t k.1)

split_plus-join :
    (s : Segment) (ss : List Segment)
    → All IsSegment (s ∷ ss)
    → split_plus (join s ss) ≡ (segment_text s, map segment_text ss)
split_plus-join s [] h = split_plus-no_plus (segment_text s) (segment-no_plus s h.0)
split_plus-join s (t ∷ ts) h = rw (
  split_plus-append,
  split_plus-no_plus (segment_text s) (segment-no_plus s h.0),
  split_plus-join t ts h.1,
)

range_of : (s : Bytes) → All IsClean s → All (λ c. (33 ≤ c) × (c ≤ 126)) s
range_of [] h = tt
range_of (c ∷ s) h = ((h.0.0, h.0.1), range_of s h.1)

guard_nonempty : (s : Bytes) → s ≢ [] → guard (not (length s == 0)) incorrect_split ≡ ok tt
guard_nonempty [] h = absurd (h refl)
guard_nonempty (c ∷ s) h = ground arith

strip_parts-segments :
    (ss : List Segment) → All IsSegment ss → strip_parts (map segment_text ss) ≡ ok (bodies ss)
unfolding strip_parts
strip_parts-segments [] h = refl
strip_parts-segments (s ∷ ss) h = rw (guard_nonempty (segment_text s) h.0.nonempty) (
    rw (trim_space-segment s h.0) (
      rw (check_ascii_of-All s.body (range_of s.body h.0.clean))
        (rw (strip_parts-segments ss h.1))))

-- From parts of the characters 33 to 126 but "+", each with white space before and after it and none
-- empty as a whole, that are joined by "+", the result is the parts one after the other.
pub strip_offer-join :
    (s : Segment) (ss : List Segment)
    → All IsSegment (s ∷ ss)
    → strip_offer (join s ss) ≡ ok (bodies (s ∷ ss))
unfolding strip_offer
strip_offer-join s ss h = rw (split_plus-join s ss h) (strip_parts-segments (s ∷ ss) h)

-- A "+" that ends the offer is taken after all where a space follows it.
pub strip_offer-plus_space :
    (p : Bytes) → All IsClean p → p ≢ [] → strip_offer (p ++ codes "+ ") ≡ ok p
strip_offer-plus_space p h ne = simp append-nil at (
    strip_offer-join (record { before = []; body = p; after = [] })
      (record { before = codes " "; body = []; after = [] } ∷ [])
      (
        record {
          spaces_before = tt;
          clean = h;
          spaces_after = tt;
          nonempty = λ e. ne (sym (append-nil p) ∙ e);
        },
        (
          record {
            spaces_before = (unfold is_space in refl, tt);
            clean = tt;
            spaces_after = tt;
            nonempty = λ e. cc;
          },
          tt,
        ),
      ))
