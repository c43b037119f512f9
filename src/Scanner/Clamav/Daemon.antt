-- ===== src/Scanner/Clamav/Daemon.antt =====
-- A ClamAV daemon as its documentation describes it, and the verdicts that
-- apps/api/src/scanner/clamav-scanner.service.ts reads from its replies.
use mathlib.Core.List.{reverse, reverse-cons, reverse-reverse, reverse-append, append_assoc}
use moddery.Base.{
  ℕ, ◌≡◌, ◌≢◌, refl, ap, sym, ◌∙◌, [], ◌∷◌, ◌++◌, Option, none, some, Text, text, trim, trim_start,
  strip_trailing, starts_with, is_space, is_empty, IsSolid, trim_of_IsSolid, trim_start_of_IsSolid,
  All-reverse, false, eq-false_of_ne, ok, err, bad_gateway, ◌⊎◌,
}
use moddery.Scanner.Clamav.{
  Bytes, Network, settled, Verdict, clean, malware, ClamavScanResult, ends_with, without_stream,
  without_found, text_or_null, parse_clamav_response,
}
use moddery.Scanner.Clamav.Frames.{stream_content}

-- The reply on a content in which `signature` was found, or nothing.
abbrev pub reply_of : Option Text → Text
reply_of none = text "stream: OK" ++ (0 ∷ [])
reply_of (some signature) = text "stream: " ++ (signature ++ (text " FOUND" ++ (0 ∷ [])))

-- A name of a signature: not empty and without white space.
abbrev pub IsSignature : Text → Type 0
IsSignature s = (is_empty s ≡ false) × IsSolid s

-- The reply of a daemon that refuses the stream, for its size or otherwise.
abbrev pub refusal : Text → Text
refusal reason = reason ++ (text " ERROR" ++ (0 ∷ []))

-- A reason: a text that does not begin with white space.
abbrev pub IsReason : Text → Type 0
IsReason reason = (c : ℕ) × (rest : Text) × (reason ≡ c ∷ rest) × (is_space c ≡ false)

-- A daemon that answers about the content of the stream or refuses it, if it answers.
abbrev pub IsDaemon : (Bytes → Option Text) → Network → Type 0
IsDaemon detect network =
    (sent content answer : Bytes)
    → stream_content sent ≡ some content
    → (network.respond sent) ≡ settled answer
    → (answer ≡ reply_of (detect content))
      ⊎ ((reason : Text) × IsReason reason × (answer ≡ refusal reason))

abbrev pub verdict_of : Option Text → Verdict
verdict_of none = clean
verdict_of (some signature) = malware

trim_of_ends :
    (c d : ℕ) (middle : Text)
    → is_space c ≡ false
    → is_space d ≡ false
    → trim (c ∷ middle ++ (d ∷ [])) ≡ c ∷ middle ++ (d ∷ [])
unfolding trim trim_start
trim_of_ends c d middle h k = rw h (
    rw (reverse-append (c ∷ middle) (d ∷ [])) (
      rw k (
        reverse-cons d (reverse (c ∷ middle))
        ∙ ap (λ (t : Text). t ++ (d ∷ [])) (reverse-reverse (c ∷ middle)))))

strip_trailing_one :
    (middle : Text) (d : ℕ) → d ≢ 0 → strip_trailing 0 (middle ++ (d ∷ 0 ∷ [])) ≡ middle ++ (d ∷ [])
unfolding strip_trailing
strip_trailing_one [] d h = rw (eq-false_of_ne d 0 h) refl
strip_trailing_one (c ∷ []) d h = rw (eq-false_of_ne d 0 h) refl
strip_trailing_one (c ∷ e ∷ middle) d h = rw (strip_trailing_one (e ∷ middle) d h) refl

-- A reply about a signature, but for the last character of its line.
found_line : Text → Text
found_line signature = text "tream: " ++ (signature ++ text " FOUN")

found_line-reply :
    (signature : Text) → reply_of (some signature) ≡ b's' ∷ found_line signature ++ (b'D' ∷ 0 ∷ [])
unfolding found_line
found_line-reply signature =
    ap (λ (t : Text). text "stream: " ++ t)
      (sym (append_assoc signature (text " FOUN") (b'D' ∷ 0 ∷ [])))

trim-reply : (answer : Option Text) → trim (reply_of answer) ≡ reply_of answer
unfolding trim trim_start is_space
trim-reply none = refl
trim-reply (some signature) =
    let regrouped : text "stream: " ++ (signature ++ (text " FOUND" ++ (0 ∷ [])))
        ≡ text "stream: " ++ (signature ++ text " FOUND" ++ (0 ∷ [])) =
      ap (λ (t : Text). text "stream: " ++ t)
        (sym (append_assoc signature (text " FOUND") (0 ∷ []))) in
    ap trim regrouped
    ∙ trim_of_ends b's' 0 (text "tream: " ++ (signature ++ text " FOUND")) refl refl
    ∙ sym regrouped

-- The line that is left of a reply about a signature.
line-reply :
    (signature : Text)
    → trim (strip_trailing 0 (reply_of (some signature)))
      ≡ text "stream: " ++ (signature ++ text " FOUND")
unfolding found_line is_space
line-reply signature =
    ap (λ (t : Text). trim (strip_trailing 0 t)) (found_line-reply signature)
    ∙ ap trim (strip_trailing_one (b's' ∷ found_line signature) b'D' (λ e. cc))
    ∙ trim_of_ends b's' b'D' (found_line signature) refl refl
    ∙ ap (λ (t : Text). text "stream: " ++ t) (append_assoc signature (text " FOUN") (b'D' ∷ []))

trim_start_of_solid_head :
    (s t : Text) → is_empty s ≡ false → IsSolid s → trim_start (s ++ t) ≡ s ++ t
unfolding trim_start
trim_start_of_solid_head [] t h k = cc
trim_start_of_solid_head (c ∷ s) t h k = rw k.0 refl

without_found_lem :
    (signature : Text) → IsSolid signature → without_found (signature ++ text " FOUND") ≡ signature
unfolding starts_with ends_with is_space trim_start
without_found_lem signature h = rw (reverse-append signature (text " FOUND")) (
    rw (trim_start_of_IsSolid (reverse signature) (All-reverse _ signature h))
      (reverse-reverse signature))

found-signature :
    (signature : Text)
    → IsSignature signature
    → text_or_null
        (trim (without_found (without_stream (text "stream: " ++ (signature ++ text " FOUND")))))
      ≡ some signature
unfolding trim_start starts_with is_space
found-signature signature (some_text, solid) =
    rw (trim_start_of_solid_head signature (text " FOUND") some_text solid) (
      rw (without_found_lem signature solid)
        (rw (trim_of_IsSolid signature solid) (rw some_text refl)))

-- What `scanUrl` is to make of a daemon's answer.
abbrev pub result_of : Option Text → ClamavScanResult
result_of none = record { raw_response = text "stream: OK"; signature = none; verdict = clean }
result_of (some signature) = record {
  raw_response = text "stream: " ++ (signature ++ text " FOUND");
  signature = some signature;
  verdict = malware;
}

abbrev pub IsAnswer : Option Text → Type 0
IsAnswer none = Unit
IsAnswer (some signature) = IsSignature signature

parse-found :
    (signature : Text)
    → IsSignature signature
    → parse_clamav_response (reply_of (some signature)) ≡ ok (result_of (some signature))
unfolding parse_clamav_response ends_with starts_with
parse-found signature h = rw (line-reply signature) (
    rw (reverse-append (text "stream: " ++ signature) (text " FOUND"))
      (rw (found-signature signature h) refl))

-- The parser reads each reply of a daemon as the answer that it was written for.
pub parse-reply :
    (answer : Option Text)
    → IsAnswer answer
    → parse_clamav_response (trim (reply_of answer)) ≡ ok (result_of answer)
unfolding parse_clamav_response trim trim_start is_space strip_trailing ends_with starts_with
parse-reply none h = refl
parse-reply (some signature) h =
    ap parse_clamav_response (trim-reply (some signature)) ∙ parse-found signature h

-- The line that is left of a refusal.
line-refusal :
    (c : ℕ) (rest : Text)
    → is_space c ≡ false
    → trim (strip_trailing 0 (trim (refusal (c ∷ rest)))) ≡ c ∷ rest ++ text " ERROR"
unfolding is_space
line-refusal c rest h =
    let grouped : refusal (c ∷ rest) ≡ c ∷ (rest ++ text " ERROR") ++ (0 ∷ []) =
      ap (λ (t : Text). c ∷ t) (sym (append_assoc rest (text " ERROR") (0 ∷ []))) in
    let split : c ∷ (rest ++ text " ERROR") ++ (0 ∷ [])
        ≡ c ∷ (rest ++ text " ERRO") ++ (b'R' ∷ 0 ∷ []) =
      ap (λ (t : Text). c ∷ t)
        (append_assoc rest (text " ERROR") (0 ∷ [])
          ∙ sym (append_assoc rest (text " ERRO") (b'R' ∷ 0 ∷ []))) in
    ap (λ (t : Text). trim (strip_trailing 0 (trim t))) grouped
    ∙ ap (λ (t : Text). trim (strip_trailing 0 t))
        (trim_of_ends c 0 (rest ++ text " ERROR") h refl ∙ split)
    ∙ ap trim (strip_trailing_one (c ∷ (rest ++ text " ERRO")) b'R' (λ e. cc))
    ∙ trim_of_ends c b'R' (rest ++ text " ERRO") h refl
    ∙ ap (λ (t : Text). c ∷ t) (append_assoc rest (text " ERRO") (b'R' ∷ []))

-- A refusal is no result of a scan.
pub parse-refusal :
    (reason : Text)
    → IsReason reason
    → parse_clamav_response (trim (refusal reason))
      ≡ err (bad_gateway "ClamAV returned an unrecognized scan result")
unfolding parse_clamav_response ends_with starts_with
parse-refusal reason (c, rest, e, h) =
    rw e (rw (line-refusal c rest h) (rw (reverse-append (c ∷ rest) (text " ERROR")) refl))
