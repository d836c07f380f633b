-- ===== src/Crowtty/Delivery.antt =====
-- From the kernel to the host: what `send` of the driver puts into its outgoing queue reaches the worker
-- of the port.
pub mod Echo
use mathlib.Core.Option
use pellegrino.Base.{
  ℕ, ◌^◌, ◌≤◌, ◌<◌, ◌≡◌, ◌≢◌, refl, sym, ap, ◌∙◌, List, [], ◌∷◌, ◌++◌, Option, none, some, true,
  false, ◌==◌, if◌then◌else◌, NoZero, All, length, append_assoc, append-nil, done, done-inj, arith,
}
use pellegrino.Sportty.Encode.{code_of, frame}
use pellegrino.Sportty.RoundTrip.{decode_in_place-frame}
use pellegrino.UsbSerial.Accumulator.Drain.Delivers.{wire, handle_all}
use pellegrino.UsbSerial.State.{Platform, PlatformLaws, UsbUartSys}
use pellegrino.UsbSerial.Send.{Sent, send}
use pellegrino.UsbSerial.Send.Chunks.{joined, left, IsPartial, IsShort, message_of, frames}
use pellegrino.UsbSerial.Send.Delivery.{send-Ended}
use pellegrino.Crowtty.{Workers, send_to, route, cut}
use pellegrino.Crowtty.Worker.{Handle, post}
use pellegrino.Crowtty.Cut.{cut-wire}
use pellegrino.Crowtty.Cut.Reads.{cut_reads, cut_reads-joined}

-- The worker of a port.
unfoldable pub worker : ℕ → Workers → Option Handle
worker q [] = none
worker q ((p, hdl) ∷ ws) = if p == q then some hdl else worker q ws

worker-send_to :
    (port q : ℕ) (bytes : List ℕ) (ws : Workers)
    → worker q (send_to port bytes ws)
      ≡ (if port == q then Option.map (post bytes) (worker q ws) else worker q ws)
unfolding worker send_to
worker-send_to port q bytes [] = ground arith
worker-send_to port q bytes ((p, hdl) ∷ ws) = ground (arith, worker-send_to port q bytes ws)

-- Several messages for one port.
abbrev send_each : ℕ → List (List ℕ) → Workers → Workers
send_each port [] ws = ws
send_each port (b ∷ bs) ws = send_each port bs (send_to port b ws)

module _ (port : ℕ) where
  send_each-other :
      (bs : List (List ℕ)) (ws : Workers) (q : ℕ)
      → q ≢ port
      → worker q (send_each port bs ws) ≡ worker q ws
  send_each-other [] ws q ne = refl
  send_each-other (b ∷ bs) ws q ne =
      let other : (port == q) ≡ false = ground arith in
      send_each-other bs (send_to port b ws) q ne ∙ worker-send_to port q b ws ∙ rw other

  send_each-same :
      (bs : List (List ℕ)) (ws : Workers) (hdl : Handle)
      → hdl.alive ≡ true
      → worker port ws ≡ some hdl
      → worker port (send_each port bs ws) ≡ some (record hdl { out = hdl.out ++ bs })
  unfolding post
  send_each-same [] ws hdl lives e =
      e ∙ ap (λ t. some (record hdl { out = t })) (sym (append-nil hdl.out))
  send_each-same (b ∷ bs) ws hdl lives e =
      let same : (port == port) ≡ true = ground arith in
      let hdl1 : Handle = record hdl { out = hdl.out ++ b ∷ [] } in
      let e1 : worker port (send_to port b ws) ≡ some hdl1 =
        worker-send_to port port b ws ∙ rw (same, e, lives) in
      send_each-same bs (send_to port b ws) hdl1 lives e1
      ∙ ap (λ t. some (record hdl { out = t })) (append_assoc hdl.out (b ∷ []) bs)

module _ {p : Platform} (laws : PlatformLaws p) (port : ℕ) where
  abbrev codes : List (List ℕ) → List (List ℕ)
  codes [] = []
  codes (b ∷ bs) = code_of laws.cobs (message_of laws port b) ∷ codes bs

  codes-NoZero : (bs : List (List ℕ)) → All NoZero (codes bs)
  codes-NoZero [] = tt
  codes-NoZero (b ∷ bs) = (laws.cobs.encoded-NoZero _, codes-NoZero bs)

  frames-wire : (bs : List (List ℕ)) → frames laws port bs ≡ wire (codes bs) []
  frames-wire [] = refl
  frames-wire (b ∷ bs) =
      append_assoc (code_of laws.cobs (message_of laws port b)) (0 ∷ []) (frames laws port bs)
      ∙ ap (λ t. code_of laws.cobs (message_of laws port b) ++ 0 ∷ t) (frames-wire bs)

  route-frame :
      (ws : Workers) (b : List ℕ)
      → port < 2 ^ 16
      → route p.cobs ws (frame laws.cobs (message_of laws port b)) ≡ done (send_to port b ws)
  unfolding route
  route-frame ws b small = rw (decode_in_place-frame laws.cobs (message_of laws port b) small)

  route-codes :
      (ws : Workers) (bs : List (List ℕ))
      → port < 2 ^ 16
      → handle_all (route p.cobs) ws (codes bs) ≡ done (send_each port bs ws)
  route-codes ws [] small = refl
  route-codes ws (b ∷ bs) small =
      rw (route-frame ws b small) (route-codes (send_to port b ws) bs small)

  -- Frames that are read in any pieces reach the worker.
  frames-delivered :
      (ws : Workers) (bs reads : List (List ℕ))
      → port < 2 ^ 16
      → joined reads ≡ frames laws port bs
      → cut_reads p.cobs ws [] reads ≡ done (send_each port bs ws, [])
  frames-delivered ws bs reads small e =
      let (ws', run, ends) = cut-wire laws.cobs ws (codes bs) [] (codes-NoZero bs) tt in
      let same : ws' ≡ send_each port bs ws = done-inj (sym run ∙ route-codes ws bs small) in
      cut_reads-joined laws.cobs ws [] reads tt
      ∙ ap (cut p.cobs ws) (e ∙ frames-wire bs)
      ∙ ends
      ∙ ap (λ t. done (t, [])) same

  -- `send` of up to 252 bytes, for a registered port of 16 bits and with an outgoing queue that is
  -- empty and a COBS that adds one byte at most to 254, returns. Then the host, in whatever pieces it
  -- reads the queue's bytes, sends to the port's worker, which lives, messages that join to the bytes
  -- that were sent, in order, and keeps no bytes back; no other worker gets a message.
  pub cut_reads-send :
      (buf : List ℕ) (s : UsbUartSys p) (d : p.tables.Deque) (ws : Workers) (hdl : Handle)
      → IsShort laws
      → port < 2 ^ 16
      → p.tables.get s.ports port ≡ some d
      → laws.queues.contents s.out ≡ []
      → length buf ≤ 252
      → worker port ws ≡ some hdl
      → hdl.alive ≡ true
      → (out' : p.queues.Queue) × (r : Sent) × (chunks : List (List ℕ)) × (send port buf s
          ≡ done (record s { out = out' }, r))
        × (buf ≡ joined chunks ++ left r)
        × IsPartial r
        × ((reads : List (List ℕ))
            → joined reads ≡ laws.queues.contents out'
            → (ws' : Workers) × (cut_reads p.cobs ws [] reads ≡ done (ws', []))
              × (worker port ws' ≡ some (record hdl { out = hdl.out ++ chunks }))
              × ((q : ℕ) → q ≢ port → worker q ws' ≡ worker q ws))
  cut_reads-send buf s d ws hdl short small registered empty few there lives =
      let (out', r, chunks, run, ended) = send-Ended laws port buf s d short registered few in
      (
        out',
        r,
        chunks,
        run,
        ended.0,
        ended.2,
        λ reads e. (
          send_each port chunks ws,
          frames-delivered ws chunks reads small
              (e ∙ ended.1 ∙ ap (λ t. t ++ frames laws port chunks) empty),
          send_each-same port chunks ws hdl lives there,
          send_each-other port chunks ws,
        ),
      )
