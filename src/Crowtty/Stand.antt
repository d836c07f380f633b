-- ===== src/Crowtty/Stand.antt =====
-- A stream that keeps the promises of `Streams`: what was written, and what is still to be read.
use pellegrino.Base.{
  ℕ, ◌≤◌, ◌≡◌, sym, ap, ◌∙◌, List, ◌++◌, some, some-inj, false, length, length-take,
  length-splice_zero, take, drop, splice, min, arith,
}
use pellegrino.Crowtty.Worker.{
  Streams, StreamsLaws, ReadResult, would_block, timed_out, read_error, read_ok,
}

abbrev pub pipe : Streams
pipe = record {
  Stream = List ℕ × List ℕ;
  write_all = λ (w, r) bytes. some (w ++ bytes, r);
  read = λ (w, r) buf.
      let n = min (length buf) (length r) in (read_ok n, (splice buf 0 (take n r), (w, drop n r)));
  take_error = λ s. (false, s);
}

pub pipe-write_all :
    (s s' : List ℕ × List ℕ) (bytes : List ℕ)
    → pipe.write_all s bytes ≡ some s'
    → s'.0 ≡ s.0 ++ bytes
pipe-write_all s s' bytes e = ap (λ t. t.0) (sym (some-inj e))

pub pipe-read :
    (s s' : List ℕ × List ℕ) (buf buf' : List ℕ) (r : ReadResult)
    → pipe.read s buf ≡ (r, (buf', s'))
    → s'.0 ≡ s.0
pipe-read s s' buf buf' r e = ap (λ t. t.1.1.0) (sym e)

count_of : ReadResult → ℕ
count_of would_block = 0
count_of timed_out = 0
count_of read_error = 0
count_of (read_ok n) = n

pub pipe-fits :
    (s s' : List ℕ × List ℕ) (buf buf' : List ℕ) (n : ℕ)
    → pipe.read s buf ≡ (read_ok n, (buf', s'))
    → (n ≤ length buf) × (length buf' ≡ length buf)
unfolding count_of
pipe-fits s s' buf buf' n e =
    let m = min (length buf) (length s.1) in
    let same : m ≡ n = ap (λ t. count_of t.0) e in
    let buf_eq : splice buf 0 (take m s.1) ≡ buf' = ap (λ t. t.1.0) e in
    (
      omega (arith, same),
      ap length (sym buf_eq)
          ∙ length-splice_zero buf (take m s.1) (omega (arith, length-take m s.1)),
    )

abbrev pub pipe_laws : StreamsLaws pipe
pipe_laws = record {
  written = λ s. s.0;
  written-write_all = pipe-write_all;
  written-read = pipe-read;
  read-fits = pipe-fits;
}
