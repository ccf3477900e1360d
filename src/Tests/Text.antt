-- ===== src/Tests/Text.antt =====
-- Digests and identifiers at concrete values.
use go_build_cache.Prelude.{◌≡◌, refl, true, arith}
use go_build_cache.Prelude.Exec.{ok}
use go_build_cache.Digest.{parse_digest, to_string, valid, validate_hex}
use go_build_cache.Digest.RoundTrip.{parse_digest-to_string, to_string-parse_digest}
use go_build_cache.Ids.{eviction_seq_of, eviction_id}
use go_build_cache.Ids.RoundTrip.{eviction_seq_of-eviction_id}
use go_build_cache.Tests.{sha}

parse_digest-to_string_example : parse_digest (to_string sha) ≡ ok sha
unfolding valid validate_hex
parse_digest-to_string_example = parse_digest-to_string sha refl

to_string-parse_digest_example : (to_string sha ≡ to_string sha) × (valid sha ≡ true)
unfolding valid validate_hex
to_string-parse_digest_example =
    to_string-parse_digest (to_string sha) sha (parse_digest-to_string sha refl)

eviction_seq_of-eviction_id_example : eviction_seq_of (eviction_id 42) ≡ 42
eviction_seq_of-eviction_id_example = eviction_seq_of-eviction_id 42 (omega arith)
