-- ===== src/Writer/Tests.antt =====
-- A stream of five bytes in segments of two, on a service that puts a byte before the payload.
use mathlib.Core.List.{flatten}
use web_sdk.Base.{
  ℕ, ◌<◌, ◌≡◌, refl, inl, Bool, true, false, List, [], ◌∷◌, none, some, Option, Result, ok, err,
  All, arith, length, Returns, subst, ◌>>=◌, ◌++◌,
}
use web_sdk.Cipher.Tests.{marking, marking-Decrypts, vector}
use web_sdk.Segments.{hs256, get_signature}
use web_sdk.Writer.State.{sign_root, Settings, Writing, initial}
use web_sdk.Writer.Stream.{pulls, write_stream}
use web_sdk.Writer.Bounds.{write_stream-Sound}
use web_sdk.Writer.Counted.{Sound}
use web_sdk.Writer.Emit.{write_all, write_segments}
use web_sdk.Writer.Refinement.{seen, pulls-write_all}
use web_sdk.Writer.Layout.{Holds, write_stream-Holds}
use web_sdk.Writer.Root.{SignsBytes, Accepted, sign_root-check}
use web_sdk.Writer.RoundTrip.{ReadsContent, write_stream-ReadsContent}

abbrev settings : Settings
settings = record {
  service = marking;
  iv = λ n. vector;
  clock =
      λ n. record { date = 2; month = 1; full_year = 2024; hours = 3; minutes = 4; seconds = 6 };
  encode = λ text. text;
  text_encode = λ units. units;
  manifest_bytes = λ aggregate information. ok (123 ∷ 125 ∷ []);
  legacy = false;
  integrity_algorithm = hs256;
  segment_integrity_algorithm = hs256;
  segment_size_default = 2;
  byte_limit = 1000;
}

abbrev content : List (List ℕ)
content = (1 ∷ 2 ∷ 3 ∷ []) ∷ [] ∷ (4 ∷ 5 ∷ []) ∷ []

abbrev budgets : List ℕ
budgets = 1 ∷ 1 ∷ 2 ∷ 1 ∷ 1 ∷ 1 ∷ []

positive_budgets : All (λ budget. 0 < budget) budgets
positive_budgets =
    (omega arith, (omega arith, (omega arith, (omega arith, (omega arith, (omega arith, tt))))))

abbrev closed_length : Result Writing → Option (Bool × ℕ × ℕ)
closed_length (err e) = none
closed_length (ok w) = some (w.closed, w.output.total_byte_count, length w.output.segment_infos)

written : closed_length (write_stream settings true (some content) budgets) ≡ some (true, 504, 3)
unfolding write_stream web_sdk.Zip.Writer.get_local_file_header web_sdk.Bytes.write_uint64_le
    web_sdk.Bytes.concat_uint8 web_sdk.Bytes.write_uint32_le web_sdk.Bytes.write_uint16_le
    web_sdk.Utf8.encode web_sdk.Zip.Writer.write_data_descriptor
    web_sdk.Zip.Writer.write_central_directory_record
    web_sdk.Zip.Writer.write_end_of_central_directory_record
written = refl

pulls-write_all_example :
    (pulls settings 15 budgets
        (record { current_buffer = []; source = content; output = initial; closed = false })
      >>= λ w. ok (seen w))
    ≡ (write_all settings 15 ([] ++ flatten content) initial >>= λ out. ok (true, out))
unfolding flatten
pulls-write_all_example =
    pulls-write_all settings 15 (omega arith) budgets [] content initial positive_budgets
      (omega arith)

write_stream-Sound_example :
    Returns (λ w. Sound settings w.output) (write_stream settings true (some content) budgets)
write_stream-Sound_example = write_stream-Sound settings true (some content) budgets

write_stream-Holds_example :
    Returns (Holds settings (flatten content)) (write_stream settings true (some content) budgets)
unfolding flatten
write_stream-Holds_example =
    write_stream-Holds settings (omega arith) content budgets (inl refl) positive_budgets
      (omega arith)

write_stream-ReadsContent_example :
    Returns
      (ReadsContent settings (flatten content))
      (write_stream settings true (some content) budgets)
unfolding flatten
write_stream-ReadsContent_example =
    write_stream-ReadsContent settings (omega arith) marking-Decrypts (λ n. refl) content budgets
      (inl refl) positive_budgets (omega arith)

byte_signatures : SignsBytes settings 15 refl
unfolding get_signature
byte_signatures payload sig e =
    let same : 7 ∷ [] ≡ sig = cc in subst (All (λ b. b < 256)) same (omega arith, tt)

sign_root-check_example :
    Returns
      (λ after. Returns (Accepted settings 15 refl (λ _. ok tt) after) (sign_root settings after))
      (write_segments settings 15 ((1 ∷ 2 ∷ []) ∷ (3 ∷ []) ∷ []) initial)
unfolding web_sdk.Segments.Root.decode_hashes
sign_root-check_example =
    sign_root-check settings 15 refl (λ _. ok tt) byte_signatures ((1 ∷ 2 ∷ []) ∷ (3 ∷ []) ∷ [])
      initial refl
