-- ===== src/Repository/Tokens.antt =====
-- internal/repository/token.go: refresh tokens, of which only hashes are stored.
pub mod Revoked
use jd_shop_server.Common.{
  ℕ, suc, String, Bool, ◌&&◌, Option, ◌∷◌, ◌==◌, str_eq, find, update_where, delete_where, is_some,
}
use jd_shop_server.Time.{Timestamp, sqlite_datetime, text_lt}
use jd_shop_server.Model.{RefreshToken}
use jd_shop_server.Db.{M, query, exec, insert_row}

abbrev pub has_hash : String → RefreshToken → Bool
has_hash hash t = str_eq t.token_hash hash

unfoldable pub create : ℕ → String → Timestamp → ℕ → M ℕ
create user_id hash expires_at now =
    insert_row (λ db. is_some (find (has_hash hash) db.refresh_tokens))
      λ db. (
        db.next_token,
        record db {
          refresh_tokens =
              record {
                id = db.next_token;
                user_id = user_id;
                token_hash = hash;
                expires_at = expires_at;
                revoked = 0;
                created_at = sqlite_datetime now;
              }
              ∷ db.refresh_tokens;
          next_token = suc db.next_token;
        },
      )

unfoldable pub find_by_hash : String → M (Option RefreshToken)
find_by_hash hash = query (λ db. find (has_hash hash) db.refresh_tokens)

unfoldable pub revoke : String → M (Unit {0})
revoke hash = exec λ db. record db {
  refresh_tokens = update_where (has_hash hash) (λ t. record t { revoked = 1 }) db.refresh_tokens;
}

unfoldable pub revoke_all_for_user : ℕ → M (Unit {0})
revoke_all_for_user user_id = exec λ db. record db {
  refresh_tokens =
      update_where (λ t. t.user_id == user_id && t.revoked == 0) (λ t. record t { revoked = 1 })
        db.refresh_tokens;
}

unfoldable pub delete_expired : ℕ → M (Unit {0})
delete_expired now = exec λ db. record db {
  refresh_tokens =
      delete_where (λ t. text_lt t.expires_at (sqlite_datetime now) && t.revoked == 0)
        db.refresh_tokens;
}
