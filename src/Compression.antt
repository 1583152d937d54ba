-- ===== src/Compression.antt =====
-- korvex/middleware/_compression.py: what a client accepts, the choice of an encoding, and the after
-- hook of `compress()`. An encoder of a library (gzip, brotli, zstd) is an `Encoder`; a streamed one
-- goes through states of the type `S`. Qualities are in thousandths: `float` reads one, `none` for its
-- ValueError; a negative one may be read as 0, which nothing tells from it.
pub mod Choice
use korvex.Prelude.{
  ℕ, Bool, true, false, not, ◌&&◌, ◌||◌, List, [], ◌∷◌, ◌++◌, reverse, Option, none, some,
}
use korvex.Prelude.Dict.{Dict, find, put}
use korvex.Prelude.Lists.{any, length}
use korvex.Prelude.Tests.{ltb, ◌==◌, if◌then◌else◌}
use korvex.Prelude.Text.{
  Text, codes, lower, split, strip, is_space, is_empty, or_empty, starts_with, comma_join,
}
use korvex.Headers
use korvex.Request.{Request}
use korvex.Response.{Response, Stream, set_header, add_header, remove_header}
use korvex.Security.{partition}
use korvex.Prelude.Text.{eq_text}

pub record Encoder (S : Type 0) : Type 0 where
  pub name : Text
  pub whole : List ℕ → List ℕ
  pub start : S
  pub piece : List ℕ → S → List ℕ × S
  pub finish : S → List ℕ

abbrev pub quality_or : ℕ → Option ℕ → ℕ
quality_or d none = d
quality_or d (some q) = q

module _ (float : Text → Option ℕ) where
  -- The quality in the parameters of one item: 1 without `q=`.
  unfoldable pub quality : Text → ℕ
  unfolding partition
  quality params =
      let parts = partition b'=' (strip is_space params) in
      if eq_text (lower (strip is_space parts.0)) (codes "q")
      then quality_or 0 (float parts.1)
      else 1000

  unfoldable pub accepted_items : List Text → Dict ℕ → Dict ℕ
  unfolding quality
  accepted_items [] accepted = accepted
  accepted_items (item ∷ items) accepted =
      let parts = partition b';' (strip is_space item) in
      let skipped = accepted_items items accepted in
      let kept =
        accepted_items items (put (lower (strip is_space parts.0)) (quality parts.1) accepted) in
      if is_empty parts.0 then skipped else kept

  -- `_accepted`
  unfoldable pub accepted_of : Text → Dict ℕ
  unfolding accepted_items
  accepted_of header = accepted_items (split b',' header) []

-- The quality of an encoding: its own, or that of `*`, or 0.
unfoldable pub quality_of : Dict ℕ → Text → ℕ
quality_of accepted name =
    quality_or (quality_or 0 (find (codes "*") accepted)) (find name accepted)

module _ {S : Type 0} where
  -- The loop of `pick`: in the order of preference, with the best so far.
  unfoldable pub best_of : Dict ℕ → List (Encoder S) → Option (Encoder S) → ℕ → Option (Encoder S)
  unfolding quality_of
  best_of accepted [] best best_q = best
  best_of accepted (e ∷ es) best best_q =
      let better = best_of accepted es (some e) (quality_of accepted e.name) in
      let same = best_of accepted es best best_q in
      if ltb best_q (quality_of accepted e.name) then better else same

  -- `_compressed`: the pieces that are not empty, and the end.
  unfoldable pub compressed : Encoder S → S → List (List ℕ) → List (List ℕ)
  compressed e s [] = e.finish s ∷ []
  compressed e s (chunk ∷ chunks) =
      let (out, s') = e.piece chunk s in
      let rest = compressed e s' chunks in if is_empty out then rest else out ∷ rest

  unfoldable pub pick : (Text → Option ℕ) → List (Encoder S) → Request → Option (Encoder S)
  unfolding accepted_of best_of
  pick float available request =
      best_of (accepted_of float (or_empty (Headers.get request.headers (codes "accept-encoding"))))
        available none 0

-- part in s
unfoldable pub has_part : Text → Text → Bool
has_part part [] = is_empty part
has_part part (c ∷ s) = starts_with part (c ∷ s) || has_part part s

unfoldable pub ends_with : Text → Text → Bool
ends_with suffix s = starts_with (reverse suffix) (reverse s)

-- The content type without its parameters, in lower case.
abbrev pub first_part : List Text → Text
first_part [] = []
first_part (s ∷ parts) = s

unfoldable pub content_type : Response → Text
content_type r = lower (
    strip is_space
      (first_part (split b';' (or_empty (Headers.get r.headers (codes "content-type"))))))

abbrev pub is_streamed : Option Stream → Bool
is_streamed none = false
is_streamed (some stream) = true

-- What the call of `compress()` works out of its arguments.
pub record Options (S : Type 0) : Type 0 where
  pub available : List (Encoder S)
  pub minimum_size : ℕ
  pub prefixes : List Text
  pub suffixes : List Text

-- The first early return of `compress_response`, the other way round.
unfoldable pub may_encode : Response → Bool
may_encode r = not (
    r.status == 204
    || r.status == 304
    || ltb r.status 200
    || Headers.contains r.headers (codes "Content-Encoding"))

unfoldable pub varied : Response → Response
unfolding has_part add_header
varied r =
    if has_part (codes "accept-encoding")
      (lower (comma_join (Headers.get_all r.headers (codes "vary"))))
    then r
    else add_header r (codes "Vary") (codes "Accept-Encoding")

module _ {S : Type 0} where
  -- The early returns that follow, on what is worth compressing.
  unfoldable pub is_worth : Options S → Response → Bool
  unfolding has_part ends_with content_type
  is_worth o r =
      not (
        has_part (codes "no-transform")
          (lower (or_empty (Headers.get r.headers (codes "cache-control")))))
      && (any (λ p. starts_with p (content_type r)) o.prefixes
          || any (λ s. ends_with s (content_type r)) o.suffixes)
      && (is_streamed r.streaming || not (ltb (length r.body) o.minimum_size))

  abbrev pub with_content : Encoder S → Response → Option Stream → Response
  with_content e r none = record r { body = e.whole r.body }
  with_content e r (some stream) = record r {
    streaming = some (record stream { chunks = compressed e e.start stream.chunks });
  }

  abbrev pub encoded : Option (Encoder S) → Response → Response
  encoded none r = r
  encoded (some e) r =
      with_content e
        (remove_header (set_header r (codes "Content-Encoding") e.name) (codes "Content-Length"))
        r.streaming

  -- The after hook `compress_response`.
  unfoldable pub compress_response : (Text → Option ℕ) → Options S → Request → Response → Response
  unfolding may_encode is_worth varied pick compressed set_header remove_header
  compress_response float o request r =
      if may_encode r && is_worth o r
      then encoded (pick float o.available request) (varied r)
      else r
