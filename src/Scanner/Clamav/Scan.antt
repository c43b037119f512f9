-- ===== src/Scanner/Clamav/Scan.antt =====
-- scanUrl of apps/api/src/scanner/clamav-scanner.service.ts together with a ClamAV daemon.
use mathlib.Core.List.{append-nil, append_assoc}
use moddery.Base.{
  ◌^◌, ◌<◌, ◌≡◌, ap, inl, inr, sym, ◌∙◌, List, [], ◌∷◌, ◌++◌, Option, some, Text, trim, is_empty,
  All, true, false, ltb, length, ok, >>=-eq-ok, ok_injective, arith,
}
use moddery.Scanner.Clamav.{
  Bytes, Network, Body, settled, response, ClamavScanResult, write_chunks, command,
  scan_readable_stream, scan_url, uint32_be, parse_clamav_response,
}
use moddery.Scanner.Clamav.Frames.{
  stream_content, after_command, framed, frames-framed, whole, scanned-whole,
  scan_readable_stream-eq-ok,
}
use moddery.Scanner.Clamav.Daemon.{
  IsDaemon, IsAnswer, reply_of, result_of, parse-reply, parse-refusal,
}

-- A scan that succeeds gives the daemon's answer about the whole file: it is MALWARE with the name of
-- the signature exactly when the daemon finds one in the bytes of the body, whatever the network does
-- and however the body is cut into chunks that are not empty. The body has been read to its end. The
-- daemon follows the protocol of INSTREAM, where it may refuse a stream, and a name of a signature has no white space.
pub scan_url_sound :
    (detect : Bytes → Option Text) (network : Network) (body : Body) (result : ClamavScanResult)
    → IsDaemon detect network
    → ((content : Bytes) → IsAnswer (detect content))
    → All (λ c. is_empty c ≡ false) (body.chunks)
    → scan_url network (response true (some body)) ≡ ok result
    → (result ≡ result_of (detect (whole (body.chunks)))) × ((body.breaks) ≡ false)
unfolding scan_url
scan_url_sound detect network body result daemon answers not_empty h =
    let (reply, e, parsed) =
      >>=-eq-ok (scan_readable_stream network body) parse_clamav_response h in
    let (sent, answer, answered, trimmed, content, complete) =
      scan_readable_stream-eq-ok network body reply e in
    let file = whole (body.chunks) in
    let all : stream_content sent ≡ some file =
      content ∙ ap some (scanned-whole (body.chunks) not_empty) in
    let said = daemon sent file answer all answered in
    let read = parse-reply (detect file) (answers file) in
    let taken : parse_clamav_response (trim answer) ≡ ok result =
      ap parse_clamav_response (sym trimmed) ∙ parsed in
    elim said [
      | inl about ↦ (
        ok_injective
            (sym read ∙ ap (λ (t : Text). parse_clamav_response (trim t)) (sym about) ∙ taken),
        complete,
      )
      | inr (reason, real, refused) ↦ cc (
        sym (ap (λ (t : Text). parse_clamav_response (trim t)) refused) ∙ taken,
        parse-refusal reason real,
      )
    ]

-- A network on which nothing fails.
abbrev pub IsUp : (Bytes → Option Text) → Network → Type 0
IsUp detect network =
    ((network.connect) ≡ settled tt)
    × ((sent : Bytes) → (network.write sent) ≡ settled tt)
    × ((sent content : Bytes)
        → stream_content sent ≡ some content
        → (network.respond sent) ≡ settled (reply_of (detect content)))

write_chunks-up :
    (network : Network) (chunks : List Bytes) (sent : Bytes)
    → ((sent : Bytes) → (network.write sent) ≡ settled tt)
    → All (λ (c : Bytes). length c < 2 ^ 32) chunks
    → write_chunks network chunks sent ≡ ok (sent ++ framed chunks)
unfolding write_chunks framed
write_chunks-up network [] sent up small = ap ok (sym (append-nil sent))
write_chunks-up network (chunk ∷ chunks) sent up small =
    let fits : ltb (length chunk) (2 ^ 32) ≡ true = ground arith in
    let size = uint32_be (length chunk) in
    let next = sent ++ size ++ chunk in
    rw (fits, up sent, up (sent ++ size))
      (write_chunks-up network chunks next up small.1
        ∙ ap ok (
            append_assoc (sent ++ size) chunk (framed chunks)
            ∙ append_assoc sent size (chunk ++ framed chunks)))

-- On a network on which nothing fails, the scan of every body that is read to its end, in chunks that
-- are not empty and shorter than 4 GiB, succeeds with the daemon's answer about the whole file.
pub scan_url_total :
    (detect : Bytes → Option Text) (network : Network) (body : Body)
    → IsUp detect network
    → ((content : Bytes) → IsAnswer (detect content))
    → All (λ c. is_empty c ≡ false) (body.chunks)
    → All (λ (c : Bytes). length c < 2 ^ 32) (body.chunks)
    → (body.breaks) ≡ false
    → scan_url network (response true (some body)) ≡ ok (result_of (detect (whole (body.chunks))))
unfolding scan_url scan_readable_stream stream_content after_command framed
scan_url_total detect network body (connects, writes, replies) answers not_empty small complete =
    let last : Bytes = 0 ∷ 0 ∷ 0 ∷ 0 ∷ [] in
    let file = whole (body.chunks) in
    let content : stream_content (command ++ framed (body.chunks) ++ last) ≡ some file =
      frames-framed (body.chunks) [] small ∙ ap some (scanned-whole (body.chunks) not_empty) in
    rw (connects, writes [])
      (rw (write_chunks-up network (body.chunks) command writes small) (
        rw (complete, writes (command ++ framed (body.chunks)))
          (rw (replies (command ++ framed (body.chunks) ++ last) file content)
            (parse-reply (detect file) (answers file)))))
