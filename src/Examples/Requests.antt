-- ===== src/Examples/Requests.antt =====
-- Encrypted requests, the limiter, and timestamps.
use Prim.Native.Nat.{min}
use jd_shop_server.Common.{
  lookup, trim_space, find, select, ℕ, ◌≡◌, ◌≢◌, refl, List, [], ◌∷◌, some, true, inl, arith, ◌+◌,
  ltb, ◌/◌,
}
use jd_shop_server.Time.{nanos, format_rfc3339, parse_rfc3339, text_lt}
use jd_shop_server.Time.Laws.{parse_rfc3339-format_rfc3339, text_lt-format_rfc3339}
use jd_shop_server.Cipher.{
  check_envelope, mark_request_id, unwrap, proceed, Crypto, RequestCipher, EncryptedRequest,
  decrypt, ok,
}
use jd_shop_server.Cipher.Replay.{Call, run, replay_refused, future_stamp_replayed}
use jd_shop_server.RateLimit.{RateLimiter}
use jd_shop_server.RateLimit.Windows.{Event, request, sweep, passed, made, passed_window}

abbrev envelope : EncryptedRequest
envelope = record {
  version = 1;
  algorithm = "RSA-OAEP-256+A256GCM";
  key_id = "main";
  key = "k";
  nonce = "n";
  ciphertext = "c";
  timestamp = 1_000_000;
  request_id = "r1";
  path = "/login";
}

-- Every text is the same envelope, and everything decrypts to itself.
abbrev crypto : Crypto
crypto = record {
  unmarshal = λ s. some envelope;
  base64 = λ s. some s;
  decrypt_oaep = λ key label. some key;
  new_cipher = λ key. true;
  nonce_size_ok = λ key nonce. true;
  aad = λ path stamp id. path;
  open_sealed = λ key nonce text aad. some text;
}

abbrev cipher : RequestCipher
cipher = record { key_id = "main"; seen = [] }

abbrev call_at : ℕ → Call
call_at t = record { path = "/login"; raw = "x"; now = t; marked = t }

-- A second at a time after the timestamp, in nanoseconds.
abbrev stamped_at : ℕ
stamped_at = 1_000_000_000_000

replay_refused_example :
    (decrypt crypto
      (run crypto
        (decrypt crypto cipher "/login" "x" stamped_at stamped_at).0
        (call_at stamped_at ∷ []))
      "/login"
      "x"
      (stamped_at + nanos)
      (stamped_at + nanos)).1
    ≢ ok "c"
unfolding decrypt check_envelope trim_space mark_request_id find select unwrap proceed
replay_refused_example =
    replay_refused crypto cipher (call_at stamped_at) (call_at (stamped_at + nanos))
      (call_at stamped_at ∷ []) envelope envelope 0 {p = "c"} refl refl refl refl refl (omega arith)
      (omega arith, tt) (omega arith) "c"

-- A timestamp two minutes ahead, and again two minutes and a nanosecond after the first request.
abbrev early : ℕ
early = 880_000_000_000

abbrev late : ℕ
late = 1_000_000_000_001

future_stamp_replayed_example :
    (decrypt crypto (decrypt crypto cipher "/login" "x" early early).0 "/login" "x" late late).1
    ≡ ok "c"
unfolding decrypt check_envelope trim_space mark_request_id find select unwrap proceed
future_stamp_replayed_example =
    future_stamp_replayed crypto cipher "/login" "x" early early late late envelope {p = "c"} refl
      refl (omega arith) (omega arith) (omega arith)

abbrev limiter : RateLimiter
limiter = record { visitors = []; limit = 2; window = 60 }

abbrev requests : List Event
requests = request "a" 5 ∷ request "b" 6 ∷ sweep 7 ∷ request "a" 8 ∷ []

passed_window_example :
    passed "a" limiter (request "a" 1 ∷ requests) ≡ min 2 (made "a" (request "a" 1 ∷ requests))
unfolding lookup
passed_window_example =
    passed_window limiter "a" 1 requests (inl refl)
      (omega arith, (omega arith, (omega arith, (omega arith, tt))))

text_lt-format_rfc3339_example :
    text_lt (format_rfc3339 early) (format_rfc3339 late) ≡ ltb (early / nanos) (late / nanos)
text_lt-format_rfc3339_example = text_lt-format_rfc3339 early late

parse_rfc3339-format_rfc3339_example : parse_rfc3339 (format_rfc3339 late) ≡ some (late / nanos)
parse_rfc3339-format_rfc3339_example = parse_rfc3339-format_rfc3339 late
