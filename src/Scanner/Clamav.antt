-- ===== src/Scanner/Clamav.antt =====
-- apps/api/src/scanner/clamav-scanner.service.ts: a file is fetched and sent to the ClamAV daemon in
-- frames, and its reply is read as a verdict. Bytes are numbers below 256.
pub mod Frames
pub mod Daemon
pub mod Scan
pub mod Tests
use moddery.Base.{
  ℕ, zero, suc, ◌+◌, ◌-◌, ◌*◌, ◌/◌, ◌%◌, ◌^◌, ◌≡◌, List, [], ◌∷◌, ◌++◌, Option, none, some, Text,
  text, trim, trim_start, strip_trailing, starts_with, teq, is_space, is_empty, ltb, Bool, true,
  false, not, ◌&&◌, if◌then◌else◌, length, drop, Result, ok, err, ◌>>=◌, ◌>>◌, throw_if, HttpError,
  bad_gateway, gateway_timeout, service_unavailable, range_error,
}
use mathlib.Core.List.{reverse}

abbrev pub Bytes : Type 0
Bytes = List ℕ

-- What a promise of the network comes to.
pub data Outcome {ℓ} (A : Type ℓ) : Type ℓ where
  settled : A → Outcome A
  rejected : Outcome A
  timed_out : Outcome A

-- The socket: how the connection ends, how a write ends after the bytes that were sent before it,
-- and what the daemon answers to all that it was sent.
pub record Network : Type 0 where
  pub connect : Outcome (Unit {0})
  pub write : Bytes → Outcome (Unit {0})
  pub respond : Bytes → Outcome Text

-- The body of a response: its chunks, and whether a read fails after them.
pub record Body : Type 0 where
  pub chunks : List Bytes
  pub breaks : Bool

pub data Fetched : Type 0 where
  unreachable : Fetched
  response : (is_ok : Bool) → Option Body → Fetched

pub data Verdict : Type 0 where
  clean malware : Verdict

pub record ClamavScanResult : Type 0 where
  pub raw_response : Text
  pub signature : Option Text
  pub verdict : Verdict

-- The two exceptions that leave `scanReadableStream`, and what its `catch` makes of an outcome.
abbrev pub scan_failed : HttpError
scan_failed = service_unavailable "ClamAV scan failed"

abbrev pub caught {ℓ} : {A : Type ℓ} → Outcome A → Result A
caught (settled a) = ok a
caught rejected = err scan_failed
caught timed_out = err (gateway_timeout "ClamAV scan timed out")

-- `writeSocket`: the bytes that are sent after it.
abbrev pub write_socket : Network → Bytes → Bytes → Result Bytes
write_socket network bytes sent = caught (network.write sent) >>= λ _. ok (sent ++ bytes)

-- `size.writeUInt32BE(n, 0)`, which refuses a number that has more than 32 bits.
abbrev pub uint32_be : ℕ → Bytes
uint32_be n = n / 2 ^ 24 ∷ n / 2 ^ 16 % 256 ∷ n / 2 ^ 8 % 256 ∷ n % 256 ∷ []

abbrev pub write_scan_chunk : Network → Bytes → Bytes → Result Bytes
write_scan_chunk network chunk sent =
    throw_if (not (ltb (length chunk) (2 ^ 32))) scan_failed
    >> write_socket network (uint32_be (length chunk)) sent
    >>= write_socket network chunk

-- The loop over the chunks of the body.
unfoldable pub write_chunks : Network → List Bytes → Bytes → Result Bytes
write_chunks network [] sent = ok sent
write_chunks network (chunk ∷ chunks) sent =
    write_scan_chunk network chunk sent >>= write_chunks network chunks

abbrev pub command : Bytes
command = text "zINSTREAM" ++ (0 ∷ [])

unfoldable pub scan_readable_stream : Network → Body → Result Text
unfolding write_chunks trim
scan_readable_stream network body = caught (network.connect) >>= λ _.
    write_socket network command [] >>= write_chunks network (body.chunks) >>= λ sent.
    throw_if (body.breaks) scan_failed
    >> write_socket network (0 ∷ 0 ∷ 0 ∷ 0 ∷ []) sent
    >>= λ all_sent. caught (network.respond all_sent) >>= λ reply. ok (trim reply)

-- `endsWith`.
unfoldable pub ends_with : Text → Text → Bool
unfolding starts_with
ends_with s suffix = starts_with (reverse s) (reverse suffix)

-- `replace(/^stream:\s*/u, '')`.
abbrev pub without_stream : Text → Text
without_stream s =
    if starts_with s (text "stream:") then trim_start (drop (length (text "stream:")) s) else s

abbrev pub space_first : Text → Bool
unfolding is_space
space_first [] = false
space_first (c ∷ s) = is_space c

-- `replace(/\s+FOUND$/u, '')`.
abbrev pub without_found : Text → Text
without_found s =
    let before = drop 5 (reverse s) in
    if ends_with s (text "FOUND") && space_first before then reverse (trim_start before) else s

abbrev pub text_or_null : Text → Option Text
text_or_null s = if is_empty s then none else some s

unfoldable pub parse_clamav_response : Text → Result ClamavScanResult
unfolding trim trim_start strip_trailing ends_with starts_with
parse_clamav_response raw =
    let response = trim (strip_trailing 0 raw) in
    if ends_with response (text " OK")
    then ok (record { raw_response = response; signature = none; verdict = clean })
    else if ends_with response (text " FOUND")
    then ok (record {
      raw_response = response;
      signature = text_or_null (trim (without_found (without_stream response)));
      verdict = malware;
    })
    else err (bad_gateway "ClamAV returned an unrecognized scan result")

abbrev pub body_of : Fetched → Result Body
body_of unreachable = err (bad_gateway "File download failed before scan")
body_of (response false body) = err (bad_gateway "File download failed before scan")
body_of (response true none) = err (bad_gateway "File download did not return a body")
body_of (response true (some body)) = ok body

-- `scanUrl` on what the download of the file gives.
unfoldable pub scan_url : Network → Fetched → Result ClamavScanResult
unfolding scan_readable_stream parse_clamav_response
scan_url network fetched =
    body_of fetched >>= scan_readable_stream network >>= parse_clamav_response
