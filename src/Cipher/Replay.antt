-- ===== src/Cipher/Replay.antt =====
-- When a request id that has been used is refused (internal/service/request_crypto.go).
use native.Mathlib.Nat.{le_trans}
use jd_shop_server.Common.{
  ◌<◌, select, find-select-none, Option-cases, ◌∙◌, sym, ℕ, ◌+◌, ◌≤◌, ◌≡◌, refl, ◌≢◌, String, true,
  false, some, List, [], ◌∷◌, arith, str_eq, eq_iff, All, find, Bool-cases, inl, inr, find-select,
  str_eq_refl, sym, All-imp,
}
use jd_shop_server.Cipher.{
  EncryptedRequest, CipherResult, ok, err, Crypto, RequestCipher, encrypted_envelope_window,
  unix_milli, is_id, is_live, mark_request_id, check_envelope, decrypt, proceed, select,
}

pub record Call : Type 0 where
  pub path : String
  pub raw : String
  pub now : ℕ
  pub marked : ℕ

pub run : Crypto → RequestCipher → List Call → RequestCipher
run k c [] = c
run k c (call ∷ calls) = run k (decrypt k c call.path call.raw call.now call.marked).0 calls

-- The table has `id`, with a deadline of `d` or later.
abbrev Holds : String → ℕ → List (String × ℕ) → Type 0
Holds id d seen = (e : String × ℕ) × (find (is_id id) seen ≡ some e) × (d ≤ e.1)

mark_request_id-Holds :
    (seen : List (String × ℕ)) (id id' : String) (d expires t : ℕ)
    → Holds id d seen
    → t ≤ d
    → Holds id d (mark_request_id seen id' expires t).0
unfolding mark_request_id find
mark_request_id-Holds seen id id' d expires t (e, h, le) lt =
    let kept = find-select (is_id id) (is_live t) seen h (ground arith) in
    elim (Bool-cases (str_eq id' id)) [
      | inl same ↦ let eq : id' ≡ id = (eq_iff id' id).0 same in (e, rw (eq, kept) kept, le)
      | inr other ↦ (e, ground arith, le)
    ]

decrypt-Holds :
    (k : Crypto) (c : RequestCipher) (path raw : String) (now marked : ℕ) (id : String) (d : ℕ)
    → Holds id d c.seen
    → marked ≤ d
    → Holds id d (decrypt k c path raw now marked).0.seen
unfolding decrypt
decrypt-Holds k c path raw now marked id d h le = go (check_envelope k c.key_id path raw now)
  where
    go : (r : CipherResult EncryptedRequest) → Holds id d (proceed k c now marked r).0.seen
    go (err e) = h
    go (ok env) = mark_request_id-Holds c.seen id env.request_id d _ marked h le

run-Holds :
    (k : Crypto) (c : RequestCipher) (calls : List Call) (id : String) (d : ℕ)
    → Holds id d c.seen
    → All (λ call. call.marked ≤ d) calls
    → Holds id d (run k c calls).seen
unfolding run
run-Holds k c [] id d h a = h
run-Holds k c (call ∷ calls) id d h (le, a) =
    run-Holds k (decrypt k c call.path call.raw call.now call.marked).0 calls id d
      (decrypt-Holds k c call.path call.raw call.now call.marked id d h le) a

-- An envelope that passes the checks is the one that the bytes decode to, and is fresh.
check_envelope-ok :
    (k : Crypto) (key path raw : String) (now : ℕ) {env : EncryptedRequest}
    → check_envelope k key path raw now ≡ ok env
    → (k.unmarshal raw ≡ some env)
      × (now ≤ unix_milli env.timestamp + encrypted_envelope_window)
      × (unix_milli env.timestamp ≤ now + encrypted_envelope_window)
unfolding check_envelope
check_envelope-ok k key path raw now h = ground arith

mark_request_id-fresh :
    (seen : List (String × ℕ)) (id : String) (expires t : ℕ)
    → (mark_request_id seen id expires t).1 ≡ true
    → Holds id expires (mark_request_id seen id expires t).0
unfolding mark_request_id find
mark_request_id-fresh seen id expires t h =
    ((id, expires), ground (arith, str_eq_refl id), ground arith)

mark_request_id-used :
    (seen : List (String × ℕ)) (id : String) (d expires t : ℕ)
    → Holds id d seen
    → t ≤ d
    → (mark_request_id seen id expires t).1 ≡ false
unfolding mark_request_id
mark_request_id-used seen id d expires t (e, h, le) lt =
    ground (arith, find-select (is_id id) (is_live t) seen h (ground arith))

-- A request that is decrypted leaves its id in the table, with its deadline.
decrypt-ok :
    (k : Crypto) (c : RequestCipher) (path raw : String) (now marked : ℕ) (env : EncryptedRequest)
    {p : String}
    → k.unmarshal raw ≡ some env
    → (decrypt k c path raw now marked).1 ≡ ok p
    → Holds env.request_id
        (now + encrypted_envelope_window)
        (decrypt k c path raw now marked).0.seen
unfolding decrypt
decrypt-ok k c path raw now marked env {p} u h = go (check_envelope k c.key_id path raw now) refl h
  where
    go :
        (r : CipherResult EncryptedRequest)
        → check_envelope k c.key_id path raw now ≡ r
        → (proceed k c now marked r).1 ≡ ok p
        → Holds env.request_id (now + encrypted_envelope_window) (proceed k c now marked r).0.seen
    go (err e) _ h = cc
    go (ok env') e h =
        let same : some env' ≡ some env = sym (check_envelope-ok k c.key_id path raw now e).0 ∙ u in
        let same_id : env'.request_id ≡ env.request_id = cc in
        rw (← same_id) (
          mark_request_id-fresh c.seen env'.request_id (now + encrypted_envelope_window) marked
            (ground arith))

-- An id that the table holds is refused, if its deadline has not passed whenever the timestamp is
-- in the window.
decrypt-ne-ok :
    (k : Crypto) (c : RequestCipher) (path raw : String) (now marked : ℕ) (env : EncryptedRequest)
    (p : String) (d : ℕ)
    → k.unmarshal raw ≡ some env
    → (now ≤ unix_milli env.timestamp + encrypted_envelope_window
        → Holds env.request_id d c.seen × (marked ≤ d))
    → (decrypt k c path raw now marked).1 ≢ ok p
unfolding decrypt
decrypt-ne-ok k c path raw now marked env p d u used =
    go (check_envelope k c.key_id path raw now) refl
  where
    go :
        (r : CipherResult EncryptedRequest)
        → check_envelope k c.key_id path raw now ≡ r
        → (proceed k c now marked r).1 ≢ ok p
    go (err e) _ = λ h. cc
    go (ok env') e =
        let (decoded, recent, _) = check_envelope-ok k c.key_id path raw now e in
        let same : some env' ≡ some env = sym decoded ∙ u in
        let same_id : env'.request_id ≡ env.request_id = cc in
        let same_ts : env'.timestamp ≡ env.timestamp = cc in
        let (holds, le) = used (omega arith) in
        let refused =
          mark_request_id-used c.seen env'.request_id d (now + encrypted_envelope_window) marked
            (rw same_id holds) le in
        λ h. ground arith

-- After a request is decrypted, at a time `now` that is past the envelope's timestamp by `lag` or
-- more, no request with the same id and timestamp is decrypted, whatever requests come between, if
-- no reading of the clock under the lock is later than the last one, and that one is at most
-- `lag` later than the reading at the head of the same call.
pub replay_refused :
    (k : Crypto) (c : RequestCipher) (first last : Call) (between : List Call)
    (env env' : EncryptedRequest) (lag : ℕ) {p : String}
    → k.unmarshal first.raw ≡ some env
    → k.unmarshal last.raw ≡ some env'
    → env'.request_id ≡ env.request_id
    → env'.timestamp ≡ env.timestamp
    → (decrypt k c first.path first.raw first.now first.marked).1 ≡ ok p
    → unix_milli env.timestamp + lag ≤ first.now
    → All (λ call. call.marked ≤ last.marked) between
    → last.marked ≤ last.now + lag
    → (q : String)
    → let later = run k (decrypt k c first.path first.raw first.now first.marked).0 between in
      (decrypt k later last.path last.raw last.now last.marked).1 ≢ ok q
replay_refused k c first last between env env' lag u u' same_id same_ts accepted past a near q =
    let d = first.now + encrypted_envelope_window in
    decrypt-ne-ok k _ last.path last.raw last.now last.marked env' q d u' λ recent.
      let le : last.marked ≤ d = omega arith in
      let start = decrypt-ok k c first.path first.raw first.now first.marked env u accepted in
      let earlier = All-imp (λ (call : Call) h. le_trans h le) between a in
      (rw same_id (run-Holds k _ between env.request_id d start earlier), le)

check_envelope-later :
    (k : Crypto) (key path raw : String) (now now' : ℕ) {env : EncryptedRequest}
    → check_envelope k key path raw now ≡ ok env
    → now' ≤ unix_milli env.timestamp + encrypted_envelope_window
    → unix_milli env.timestamp ≤ now' + encrypted_envelope_window
    → check_envelope k key path raw now' ≡ ok env
unfolding check_envelope
check_envelope-later k key path raw now now' h recent early = ground arith

-- The entry that a request leaves is gone once its deadline has passed.
mark_request_id-again :
    (seen : List (String × ℕ)) (id : String) (expires t expires' t' : ℕ)
    → (mark_request_id seen id expires t).1 ≡ true
    → expires < t'
    → (mark_request_id (mark_request_id seen id expires t).0 id expires' t').1 ≡ true
unfolding mark_request_id find select
mark_request_id-again seen id expires t expires' t' fresh late =
    elim (Option-cases (find (is_id id) (select (is_live t) seen))) [
      | inl absent ↦
          ground (arith, find-select-none (is_id id) (is_live t') (select (is_live t) seen) absent)
      | inr (e, present) ↦ ground arith
    ]

-- The bytes of a request whose timestamp is ahead of the server's clock are decrypted a second
-- time, to the same text, once the deadline of its id has passed and while its timestamp is still
-- in the window.
pub future_stamp_replayed :
    (k : Crypto) (c : RequestCipher) (path raw : String) (now marked now' marked' : ℕ)
    (env : EncryptedRequest) {p : String}
    → (decrypt k c path raw now marked).1 ≡ ok p
    → k.unmarshal raw ≡ some env
    → now + encrypted_envelope_window < marked'
    → now' ≤ unix_milli env.timestamp + encrypted_envelope_window
    → unix_milli env.timestamp ≤ now' + encrypted_envelope_window
    → (decrypt k (decrypt k c path raw now marked).0 path raw now' marked').1 ≡ ok p
unfolding decrypt
future_stamp_replayed k c path raw now marked now' marked' env {p} accepted u late recent early =
    go (check_envelope k c.key_id path raw now) refl accepted
  where
    go :
        (r : CipherResult EncryptedRequest)
        → check_envelope k c.key_id path raw now ≡ r
        → (proceed k c now marked r).1 ≡ ok p
        → (proceed k
            (proceed k c now marked r).0
            now'
            marked'
            (check_envelope k (proceed k c now marked r).0.key_id path raw now')).1
          ≡ ok p
    go (err e) _ h = cc
    go (ok env') e h =
        let decoded = (check_envelope-ok k c.key_id path raw now e).0 in
        let same : some env' ≡ some env = sym decoded ∙ u in
        let same_ts : env'.timestamp ≡ env.timestamp = cc in
        let expires = now + encrypted_envelope_window in
        let fresh : (mark_request_id c.seen env'.request_id expires marked).1 ≡ true =
          ground arith in
        let again =
          mark_request_id-again c.seen env'.request_id expires marked
            (now' + encrypted_envelope_window) marked' fresh late in
        let checked =
          check_envelope-later k c.key_id path raw now now' e (omega arith) (omega arith) in
        rw checked (ground arith)
