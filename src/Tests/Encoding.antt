-- ===== src/Tests/Encoding.antt =====
-- Columns of naturals, encoded.
use query_engine.Prelude.{◌≡◌, refl, ◌==◌, ==_iff, some, [], ◌∷◌, length, arith}
use query_engine.Prelude.Int.{pos, negsuc, ◌-ℤ◌}
use query_engine.Encoding.FrameOfReference.{
  FrameOfReferenceVector, scan_from, scan_bounds, encode, decode_offsets,
}
use query_engine.Encoding.FrameOfReference.RoundTrip.{decode_offsets-encode}
use query_engine.Encoding.RunLength.{collect_runs, run_count, decode, value_at}
use query_engine.Encoding.RunLength.Lookup.{length-collect_runs}
use query_engine.Encoding.RunLength.Decode.{decode-collect_runs}
use query_engine.Encoding.RunLength.Search.{value_at-collect_runs}

decode-collect_runs_example :
    decode 0 (collect_runs ◌==◌ 7 (7 ∷ 3 ∷ 3 ∷ 7 ∷ [])) 5 ≡ 7 ∷ 7 ∷ 3 ∷ 3 ∷ 7 ∷ []
decode-collect_runs_example = decode-collect_runs ◌==◌ ==_iff 0 7 (7 ∷ 3 ∷ 3 ∷ 7 ∷ [])

value_at-collect_runs_example :
    some 3 ≡ some (value_at 0 (collect_runs ◌==◌ 7 (7 ∷ 3 ∷ 3 ∷ 7 ∷ [])) 3)
value_at-collect_runs_example =
    value_at-collect_runs ◌==◌ ==_iff 0 7 (7 ∷ 3 ∷ 3 ∷ 7 ∷ []) 3 (omega arith)

length-collect_runs_example :
    length (collect_runs ◌==◌ 7 (7 ∷ 3 ∷ 3 ∷ 7 ∷ [])) ≡ run_count ◌==◌ 7 (7 ∷ 3 ∷ 3 ∷ 7 ∷ [])
length-collect_runs_example = length-collect_runs ◌==◌ 7 (7 ∷ 3 ∷ 3 ∷ 7 ∷ [])

decode_offsets-encode_example :
    (vector : FrameOfReferenceVector) × (encode
        (scan_bounds (pos 1000) (negsuc 4 ∷ pos 7 ∷ []))
        (pos 1000 ∷ negsuc 4 ∷ pos 7 ∷ [])
      ≡ some vector)
    × (decode_offsets 2147483648 vector ≡ pos 1000 ∷ negsuc 4 ∷ pos 7 ∷ [])
unfolding scan_bounds scan_from ◌-ℤ◌
decode_offsets-encode_example =
    decode_offsets-encode 2147483648 (pos 1000) (negsuc 4 ∷ pos 7 ∷ [])
      (omega arith, (omega arith, (omega arith, tt))) refl
