-- ===== src/Scanner/Clamav/Frames.antt =====
-- The frames of ClamAV's INSTREAM command, as the daemon's documentation describes them, and what
-- the frames that apps/api/src/scanner/clamav-scanner.service.ts sends hold.
use mathlib.Core.List.{append-nil, append_assoc}
use moddery.Base.{
  ℕ, zero, suc, ◌+◌, ◌*◌, ◌/◌, ◌%◌, ◌^◌, ◌<◌, ◌≡◌, refl, ap, sym, ◌∙◌, List, [], ◌∷◌, ◌++◌, Option,
  none, some, Text, text, trim, true, false, not, ltb, length, All, ok, ◌>>=◌, ◌>>◌, throw_if,
  arith, is_empty, ◌==◌, >>=-eq-ok, >>-eq-ok, throw_if-eq-ok, ok_injective,
}
use moddery.Scanner.Clamav.{
  Bytes, Network, Body, Outcome, settled, rejected, timed_out, caught, write_socket, uint32_be,
  write_scan_chunk, write_chunks, command, scan_readable_stream, scan_failed,
}

abbrev put_byte : ℕ → Option Bytes → Option Bytes
put_byte b none = none
put_byte b (some content) = some (b ∷ content)

-- A frame is its length in four bytes, the high byte first, and its bytes; a frame of no bytes ends
-- the stream. The first argument counts the bytes of the open frame that are still to come.
unfoldable pub frames : ℕ → Bytes → Option Bytes
frames (suc n) [] = none
frames (suc n) (b ∷ bytes) = put_byte b (frames n bytes)
frames zero (a ∷ b ∷ c ∷ d ∷ bytes) = elim (a * 2 ^ 24 + b * 2 ^ 16 + c * 2 ^ 8 + d) [
  | zero ↦ some []
  | suc n ↦ frames (suc n) bytes
]
frames zero _ = none

-- What the daemon scans of all that it was sent: the frames after the command.
unfoldable pub after_command : Bytes → Bytes → Option Bytes
unfolding frames
after_command [] bytes = frames 0 bytes
after_command (c ∷ rest) [] = none
after_command (c ∷ rest) (b ∷ bytes) = elim (c == b) [
  | true ↦ after_command rest bytes
  | false ↦ none
]

unfoldable pub stream_content : Bytes → Option Bytes
unfolding after_command frames
stream_content bytes = after_command command bytes

-- The frames of chunks, and the bytes that the daemon takes from them: up to the first chunk that is
-- empty, which the daemon takes for the end.
unfoldable pub framed : List Bytes → Bytes
framed [] = []
framed (chunk ∷ chunks) = uint32_be (length chunk) ++ (chunk ++ framed chunks)

abbrev pub scanned : List Bytes → Bytes
scanned [] = []
scanned ([] ∷ chunks) = []
scanned ((b ∷ chunk) ∷ chunks) = (b ∷ chunk) ++ scanned chunks

-- The whole of a file.
abbrev pub whole : List Bytes → Bytes
whole [] = []
whole (chunk ∷ chunks) = chunk ++ whole chunks

pub scanned-whole :
    (chunks : List Bytes) → All (λ c. is_empty c ≡ false) chunks → scanned chunks ≡ whole chunks
scanned-whole [] h = refl
scanned-whole ([] ∷ chunks) h = cc h.0
scanned-whole ((b ∷ chunk) ∷ chunks) h =
    ap (λ (t : Bytes). (b ∷ chunk) ++ t) (scanned-whole chunks h.1)

append_bytes : Bytes → Option Bytes → Option Bytes
append_bytes [] o = o
append_bytes (b ∷ bytes) o = put_byte b (append_bytes bytes o)

frames-open :
    (chunk rest : Bytes)
    → frames (length chunk) (chunk ++ rest) ≡ append_bytes chunk (frames 0 rest)
unfolding frames append_bytes
frames-open [] rest = refl
frames-open (b ∷ chunk) rest = ap (put_byte b) (frames-open chunk rest)

append_bytes-some :
    (chunk content : Bytes) → append_bytes chunk (some content) ≡ some (chunk ++ content)
unfolding append_bytes
append_bytes-some [] content = refl
append_bytes-some (b ∷ chunk) content = rw (append_bytes-some chunk content) refl

frames-head :
    (n : ℕ) (rest : Bytes)
    → suc n < 2 ^ 32
    → frames 0 (uint32_be (suc n) ++ rest) ≡ frames (suc n) rest
unfolding frames
frames-head n rest h =
    let e : suc n / 2 ^ 24 * 2 ^ 24
          + suc n / 2 ^ 16 % 256 * 2 ^ 16
          + suc n / 2 ^ 8 % 256 * 2 ^ 8
          + suc n % 256
        ≡ suc n =
      omega arith in
    rw (e, frames) refl

pub frames-framed :
    (chunks : List Bytes) (rest : Bytes)
    → All (λ (c : Bytes). length c < 2 ^ 32) chunks
    → frames 0 (framed chunks ++ (0 ∷ 0 ∷ 0 ∷ 0 ∷ rest)) ≡ some (scanned chunks)
unfolding framed frames
frames-framed [] rest h = refl
frames-framed ([] ∷ chunks) rest h = refl
frames-framed ((b ∷ chunk) ∷ chunks) rest h =
    let c = b ∷ chunk in
    let tail = framed chunks ++ (0 ∷ 0 ∷ 0 ∷ 0 ∷ rest) in
    ap (frames 0) (
      append_assoc (uint32_be (length c)) (c ++ framed chunks) (0 ∷ 0 ∷ 0 ∷ 0 ∷ rest)
      ∙ ap (λ (t : Bytes). uint32_be (length c) ++ t)
          (append_assoc c (framed chunks) (0 ∷ 0 ∷ 0 ∷ 0 ∷ rest)))
    ∙ frames-head (length chunk) (c ++ tail) h.0
    ∙ frames-open c tail
    ∙ ap (append_bytes c) (frames-framed chunks rest h.1)
    ∙ append_bytes-some c (scanned chunks)

write_socket-eq-ok :
    (network : Network) (bytes sent sent' : Bytes)
    → write_socket network bytes sent ≡ ok sent'
    → sent ++ bytes ≡ sent'
write_socket-eq-ok network bytes sent sent' h =
    let (u, e, f) = >>=-eq-ok (caught (network.write sent)) (λ u. ok (sent ++ bytes)) h in
    sym (ok_injective f)

-- All that the loop over the chunks has sent when it ends.
pub write_chunks-framed :
    (network : Network) (chunks : List Bytes) (sent sent' : Bytes)
    → write_chunks network chunks sent ≡ ok sent'
    → (sent ++ framed chunks ≡ sent') × All (λ (c : Bytes). length c < 2 ^ 32) chunks
unfolding write_chunks framed
write_chunks-framed network [] sent sent' h = (append-nil sent ∙ sym (ok_injective h), tt)
write_chunks-framed network (chunk ∷ chunks) sent sent' h =
    let (all, e, f) = >>=-eq-ok (write_scan_chunk network chunk sent) _ h in
    let size = uint32_be (length chunk) in
    let guard = throw_if (not (ltb (length chunk) (2 ^ 32))) scan_failed in
    let (mid, g, k) =
      >>=-eq-ok (guard >> write_socket network size sent) (write_socket network chunk) e in
    let (small, j) = >>-eq-ok guard (write_socket network size sent) g in
    let fits = throw_if-eq-ok (not (ltb (length chunk) (2 ^ 32))) scan_failed small in
    let (rest, bounds) = write_chunks-framed network chunks all sent' f in
    let e₁ = write_socket-eq-ok network size sent mid j in
    let e₂ = write_socket-eq-ok network chunk mid all k in
    let moved : sent ++ size ++ chunk ≡ all = ap (λ (t : Bytes). t ++ chunk) e₁ ∙ e₂ in
    (
      sym (
            append_assoc (sent ++ size) chunk (framed chunks)
            ∙ append_assoc sent size (chunk ++ framed chunks))
          ∙ ap (λ (t : Bytes). t ++ framed chunks) moved
          ∙ rest,
      (ground arith, bounds),
    )

caught-eq-ok {ℓ} :
    {A : Type ℓ} (outcome : Outcome A) (a : A) → caught outcome ≡ ok a → outcome ≡ settled a
caught-eq-ok (settled b) a h = cc
caught-eq-ok rejected a h = cc
caught-eq-ok timed_out a h = cc

-- What the daemon has been sent when a scan succeeds, and what it reads.
pub scan_readable_stream-eq-ok :
    (network : Network) (body : Body) (reply : Text)
    → scan_readable_stream network body ≡ ok reply
    → (sent : Bytes) × (answer : Text) × ((network.respond sent) ≡ settled answer)
      × (reply ≡ trim answer)
      × (stream_content sent ≡ some (scanned (body.chunks)))
      × ((body.breaks) ≡ false)
unfolding scan_readable_stream stream_content after_command
scan_readable_stream-eq-ok network body reply h =
    let last : Bytes = 0 ∷ 0 ∷ 0 ∷ 0 ∷ [] in
    let answer =
      λ (all : Bytes). caught (network.respond all) >>= λ (text : Text). ok (trim text) in
    let guard = throw_if (body.breaks) scan_failed in
    let finish = λ (sent : Bytes). guard >> write_socket network last sent >>= answer in
    let start = write_socket network command [] in
    let (u, connected, h₁) =
      >>=-eq-ok (caught (network.connect))
        (λ u. start >>= write_chunks network (body.chunks) >>= finish) h in
    let (sent, looped, h₂) = >>=-eq-ok (start >>= write_chunks network (body.chunks)) finish h₁ in
    let (begun, first, loop) = >>=-eq-ok start (write_chunks network (body.chunks)) looped in
    let (all, ended, h₃) = >>=-eq-ok (guard >> write_socket network last sent) answer h₂ in
    let (whole_body, written) = >>-eq-ok guard (write_socket network last sent) ended in
    let (text, answered, h₄) =
      >>=-eq-ok (caught (network.respond all)) (λ (text : Text). ok (trim text)) h₃ in
    let (e, bounds) = write_chunks-framed network (body.chunks) begun sent loop in
    let e₁ = write_socket-eq-ok network command [] begun first in
    let e₂ = write_socket-eq-ok network last sent all written in
    let sent_all : command ++ (framed (body.chunks) ++ last) ≡ all =
      sym (append_assoc command (framed (body.chunks)) last)
      ∙ ap (λ (t : Bytes). t ++ framed (body.chunks) ++ last) e₁
      ∙ ap (λ (t : Bytes). t ++ last) e
      ∙ e₂ in
    (
      all,
      text,
      caught-eq-ok (network.respond all) text answered,
      ok_injective h₄,
      ap stream_content (sym sent_all) ∙ frames-framed (body.chunks) [] bounds,
      throw_if-eq-ok (body.breaks) scan_failed whole_body,
    )
