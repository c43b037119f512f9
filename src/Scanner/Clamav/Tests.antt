-- ===== src/Scanner/Clamav/Tests.antt =====
-- Scans of apps/api/src/scanner/clamav-scanner.service.ts with a daemon that looks at the first byte.
use moddery.Base.{
  ◌≡◌, refl, sym, ◌∙◌, [], ◌∷◌, Option, none, some, Text, text, true, false, ◌==◌, if◌then◌else◌,
  trim, trim_start, strip_trailing, starts_with, Bool-cases, is_space, inl, inr, ok, err, arith,
  bad_gateway,
}
use moddery.Scanner.Clamav.{
  Bytes, Network, Body, Outcome, settled, rejected, unreachable, response, parse_clamav_response,
  scan_url, scan_readable_stream, write_chunks, ends_with,
}
use moddery.Scanner.Clamav.Frames.{stream_content, after_command, frames}
use moddery.Scanner.Clamav.Daemon.{IsDaemon, IsAnswer, reply_of, result_of}
use moddery.Scanner.Clamav.Scan.{IsUp, scan_url_sound, scan_url_total}

detect : Bytes → Option Text
detect [] = none
detect (b ∷ content) = if b == b'E' then some (text "Eicar") else none

-- The daemon's answer to a stream that it can read.
answer_to : Option Bytes → Outcome Text
unfolding detect
answer_to none = rejected
answer_to (some content) = settled (reply_of (detect content))

abbrev network : Network
unfolding answer_to
network = record {
  connect = settled tt;
  write = λ sent. settled tt;
  respond = λ sent. answer_to (stream_content sent);
}

network-IsUp : IsUp detect network
unfolding answer_to network
network-IsUp = (refl, (λ sent. refl), λ sent content e. rw e refl)

settled_injective : {a b : Text} → ◌≡◌ {A = Outcome Text} (settled a) (settled b) → a ≡ b
settled_injective h = cc

network-IsDaemon : IsDaemon detect network
network-IsDaemon sent content answer e h =
    inl (settled_injective (sym h ∙ network-IsUp.2 sent content e))

detect-IsAnswer : (content : Bytes) → IsAnswer (detect content)
unfolding detect is_space
detect-IsAnswer [] = tt
detect-IsAnswer (b ∷ content) = elim (Bool-cases (b == b'E')) [
  | inl e ↦ rw e (refl, (refl, (refl, (refl, (refl, (refl, tt))))))
  | inr e ↦ rw e tt
]

abbrev infected : Body
infected = record { chunks = text "EI" ∷ text "CAR" ∷ []; breaks = false }

scan_url_total_example :
    scan_url network (response true (some infected)) ≡ ok (result_of (detect (text "EICAR")))
scan_url_total_example =
    scan_url_total detect network infected network-IsUp detect-IsAnswer (refl, (refl, tt))
      (omega arith, (omega arith, tt)) refl

scan_url_sound_example :
    (result_of (detect (text "EICAR")) ≡ result_of (detect (text "EICAR")))
    × ((infected.breaks) ≡ false)
scan_url_sound_example =
    scan_url_sound detect network infected (result_of (detect (text "EICAR"))) network-IsDaemon
      detect-IsAnswer (refl, (refl, tt)) scan_url_total_example

-- A body that begins with an empty chunk is judged as an empty file.
empty_chunk_ends_stream :
    scan_url network
      (response true (some (record { chunks = [] ∷ text "EICAR" ∷ []; breaks = false })))
    ≡ ok (result_of none)
unfolding scan_url scan_readable_stream write_chunks network answer_to stream_content after_command
    frames detect parse_clamav_response trim trim_start is_space strip_trailing ends_with
    starts_with
empty_chunk_ends_stream = refl

unreachable_file :
    scan_url network unreachable ≡ err (bad_gateway "File download failed before scan")
unfolding scan_url
unreachable_file = refl
