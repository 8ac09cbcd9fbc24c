-- ===== src/Multipart/Calls.antt =====
-- A form under any sequence of calls: rewound, it sends exactly its bytes, and its length is theirs.
use hiyori.Prelude.{
  ℕ, ◌<◌, ◌≡◌, ap, ◌∙◌, some, List, [], ◌∷◌, length, concat, Str, Bytes, arith, Option,
}
use hiyori.Outcome.{ok}
use hiyori.Headers.{HeaderDict}
use hiyori.Stream.Drain.{drain, drain_complete}
use hiyori.Multipart.Form.{
  FormValue, MultipartRequestBody, multipart_body, calc_len, seek_front, read,
}
use hiyori.Multipart.Content.{
  FormHolds, form_stream, read-FormHolds, seek_front-FormHolds, calc_len-FormHolds,
}
use hiyori.Multipart.Format.{
  form_bytes, form_pieces, delimiter_of, closing_of, multipart_body-FormHolds,
}

pub data Call : Type 0 where
  reading : ℕ → Call
  rewinding : Call
  measuring : Call

module _ {H : Type 0} ⦃d : HeaderDict H⦄ where
  -- The body after the calls; what they return is dropped.
  unfoldable pub after : List Call → MultipartRequestBody H → MultipartRequestBody H
  after [] m = m
  after (reading n ∷ calls) m = after calls (read n m).1
  after (rewinding ∷ calls) m = after calls (seek_front m).1
  after (measuring ∷ calls) m = after calls (calc_len m).1

  after-FormHolds :
      {cs : List Bytes} (calls : List Call) (m : MultipartRequestBody H)
      → FormHolds cs m
      → FormHolds cs (after calls m)
  unfolding after
  after-FormHolds [] m h = h
  after-FormHolds (reading n ∷ calls) m h = after-FormHolds calls (read n m).1 (read-FormHolds h n)
  after-FormHolds (rewinding ∷ calls) m h =
      after-FormHolds calls (seek_front m).1 (seek_front-FormHolds h).0
  after-FormHolds (measuring ∷ calls) m h =
      after-FormHolds calls (calc_len m).1 (calc_len-FormHolds h).0

  module _ (guess_type : Str → Option Str) (uuid : Str) (form : List (Str × FormValue H))
      (calls : List Call) where
    abbrev used : MultipartRequestBody H
    used = after calls (multipart_body guess_type uuid form)

    pub used-FormHolds :
        FormHolds (form_pieces guess_type (delimiter_of uuid) (closing_of uuid) form) used
    used-FormHolds =
        after-FormHolds calls (multipart_body guess_type uuid form)
          (multipart_body-FormHolds guess_type uuid form)

    -- Whatever was read, rewound or measured before, a form that is rewound and read to its end in
    -- pieces of any positive size sends exactly the delimiters, headers and values of its fields in
    -- order and the closing delimiter; one call more than there are bytes is enough.
    pub drain-seek_front :
        (fuel n : ℕ)
        → 0 < n
        → length (form_bytes guess_type uuid form) < fuel
        → (pieces : List Bytes) × (m : MultipartRequestBody H) × (drain form_stream fuel n
              (seek_front used).1
            ≡ some (pieces, m))
          × (concat pieces ≡ form_bytes guess_type uuid form)
    drain-seek_front fuel n pos enough =
        let (hold, rest, done) = seek_front-FormHolds used-FormHolds in
        let (pieces, m, run, sent, _) =
          drain_complete form_stream fuel n (seek_front used).1 pos
            (omega (arith, ap length rest)) in
        (pieces, m, run, sent ∙ rest)

    -- Whenever it is asked, a form gives as its length the number of bytes that it sends.
    pub calc_len-form_bytes : (calc_len used).0 ≡ ok (length (form_bytes guess_type uuid form))
    calc_len-form_bytes = (calc_len-FormHolds used-FormHolds).1
