-- ===== src/Sportty/RoundTrip.antt =====
-- Decoding a frame gives its message back, and decoding never panics.
use pellegrino.Base.{
  ℕ, Bool, suc, ◌+◌, ◌^◌, ◌≤◌, ◌<◌, ◌≡◌, ◌∙◌, ap, refl, inl, inr, List, [], ◌∷◌, ◌++◌, some, arith,
  length, take, splice, get_or, false, leb, ltb, leb→le, sym, Returns, not-leb→lt, le→leb,
  Bool-cases, Option-cases, ◌||◌, length-append, length-splice_zero, take-splice_zero,
  take-append_exact, done,
}
use pellegrino.Sportty.{
  insufficient_space, Result, ok, err, Message, port_size, to_le_bytes, strip_sentinel, split_port,
  encode_to, decode_stripped, decode_in_place, decode_stripped_to, decode_to,
}
use pellegrino.Sportty.Codec.{Cobs, CobsLaws}
use pellegrino.Sportty.Encode.{frame, encode_to-frame, encode_to-full}

get_or-last : (xs : List ℕ) (x : ℕ) → get_or (xs ++ x ∷ []) (length xs) 0 ≡ x
get_or-last [] x = refl
get_or-last (y ∷ ys) x = get_or-last ys x

strip_sentinel-frame : (xs : List ℕ) → strip_sentinel (xs ++ 0 ∷ []) ≡ some xs
unfolding strip_sentinel
strip_sentinel-frame [] = refl
strip_sentinel-frame (x ∷ xs) =
    let size : length (xs ++ 0 ∷ []) ≡ suc (length xs) = length-append xs (0 ∷ []) ∙ omega arith in
    rw (size, get_or-last xs 0)
      (ap (λ t. some (x ∷ t)) (take-append_exact (length xs) xs (0 ∷ []) refl))

-- A port and data are read back from the bytes of a message.
split_port-message :
    (m : Message) (buf : List ℕ)
    → let body = to_le_bytes m.port ++ m.bytes in
      m.port < 2 ^ 16
      → length body ≤ length buf
      → take (length body) buf ≡ body
      → split_port buf (length body) ≡ done (ok m)
unfolding split_port
split_port-message m buf small fits e =
    rw (le→leb _ _ fits, e, le→leb port_size (length (to_le_bytes m.port ++ m.bytes)) (omega arith))
      (ap (λ p. done (ok (record { port = p; bytes = m.bytes }))) (omega arith))

split_port-ends :
    (buf : List ℕ) (n : ℕ)
    → n ≤ length buf
    → port_size ≤ n
    → Returns (λ r. Unit {0}) (split_port buf n)
unfolding split_port
split_port-ends buf n h k = rw (le→leb _ _ h, le→leb _ _ k) tt

port-fits : (used : ℕ) (long : Bool) → (ltb used port_size || long) ≡ false → port_size ≤ used
port-fits used long e = ground arith

module _ {c : Cobs} (laws : CobsLaws c) where
  open laws use {encoded, decodes_in_place, decodes, decode_in_place-within, decode-within}

  -- A frame decodes, in place, to its message.
  pub decode_in_place-frame :
      (m : Message) → m.port < 2 ^ 16 → decode_in_place c (frame laws m) ≡ done (ok m)
  unfolding decode_in_place
  decode_in_place-frame m small =
      let body = to_le_bytes m.port ++ m.bytes in
      let (buf, e, same) = decodes_in_place body in
      let inside = decode_in_place-within (encoded body) (length body) buf e in
      let long = length-append (encoded body) (0 ∷ []) in
      let enough : (ltb (length body) port_size || ltb (length (frame laws m)) (length body))
          ≡ false =
        ground (arith, inside) in
      rw (strip_sentinel-frame (encoded body), decode_in_place, e, decode_stripped, enough)
        (split_port-message m buf small inside.0 same)

  -- Whatever `encode_to` returns decodes, in place, to the message that was encoded.
  pub decode_in_place-encode_to :
      (m : Message) (dest out : List ℕ) (n : ℕ)
      → m.port < 2 ^ 16
      → encode_to c m dest ≡ ok (n, out)
      → decode_in_place c (take n out) ≡ done (ok m)
  decode_in_place-encode_to m dest out n small e =
      elim (Bool-cases (leb (length (frame laws m)) (length dest))) [
        | inl fits ↦
            let (out', e', same, size) = encode_to-frame laws m dest (leb→le _ _ fits) in
            let got : ◌≡◌ {A = Result (ℕ × List ℕ)} (ok (n, out))
                (ok (length (frame laws m), out')) =
              sym e ∙ e' in
            let n_eq : n ≡ length (frame laws m) = cc in
            let out_eq : out ≡ out' = cc in rw (n_eq, out_eq, same) (decode_in_place-frame m small)
        | inr full ↦
            let e' = encode_to-full laws m dest (not-leb→lt _ _ full) in
            let wrong : ◌≡◌ {A = Result (ℕ × List ℕ)} (ok (n, out)) (err insufficient_space) =
              sym e ∙ e' in
            absurd (cc)
      ]

  -- A frame decodes to its message in a buffer of its own that has room for the port and data.
  pub decode_to-frame :
      (m : Message) (dst_buf : List ℕ)
      → m.port < 2 ^ 16
      → length m.bytes + 2 ≤ length dst_buf
      → decode_to c (frame laws m) dst_buf ≡ done (ok m)
  unfolding decode_to
  decode_to-frame m dst_buf small room =
      let body = to_le_bytes m.port ++ m.bytes in
      let fits : length body ≤ length dst_buf = omega arith in
      let e = decodes body dst_buf fits in
      let same = length-splice_zero dst_buf body fits in
      let enough : (ltb (length body) port_size
            || ltb (length (splice dst_buf 0 body)) (length body))
          ≡ false =
        ground arith in
      rw (strip_sentinel-frame (encoded body), decode_to, e, decode_stripped_to, enough)
        (split_port-message m (splice dst_buf 0 body) small (omega arith)
          (take-splice_zero dst_buf body))

  decode_stripped-ends : (src : List ℕ) (n : ℕ) → Returns (λ r. Unit {0}) (decode_stripped c src n)
  unfolding decode_stripped
  decode_stripped-ends src n = elim (Option-cases (c.decode_in_place src)) [
    | inl e ↦ rw (e, decode_stripped) tt
    | inr ((used, buf), e) ↦
        rw (e, decode_stripped)
          (elim (Bool-cases (ltb used port_size || ltb n used)) [
            | inl bad ↦ rw bad tt
            | inr good ↦ rw good (
                split_port-ends buf used (decode_in_place-within src used buf e).0
                  (port-fits used (ltb n used) good))
          ])
  ]

  decode_stripped_to-ends :
      (src dst_buf : List ℕ) → Returns (λ r. Unit {0}) (decode_stripped_to c src dst_buf)
  unfolding decode_stripped_to
  decode_stripped_to-ends src dst_buf = elim (Option-cases (c.decode src dst_buf)) [
    | inl e ↦ rw (e, decode_stripped_to) tt
    | inr ((used, buf), e) ↦
        rw (e, decode_stripped_to)
          (elim (Bool-cases (ltb used port_size || ltb (length buf) used)) [
            | inl bad ↦ rw bad tt
            | inr good ↦ rw good (
                split_port-ends buf used (decode-within src dst_buf used buf e).0
                  (port-fits used (ltb (length buf) used) good))
          ])
  ]

  -- Both decoders return, with a message or an error, whatever the bytes are: no slice and
  -- no split panics.
  pub decode-total :
      (src dst_buf : List ℕ)
      → Returns (λ r. Unit {0}) (decode_in_place c src)
        × Returns (λ r. Unit {0}) (decode_to c src dst_buf)
  unfolding decode_in_place decode_to
  decode-total src dst_buf = elim (Option-cases (strip_sentinel src)) [
    | inl e ↦ (rw (e, decode_in_place) tt, rw (e, decode_to) tt)
    | inr (body, e) ↦ (
      rw (e, decode_in_place) (decode_stripped-ends body (length src)),
      rw (e, decode_to) (decode_stripped_to-ends body dst_buf),
    )
  ]
