-- ===== src/Time.antt =====
-- Instants and the texts that stand for them in the database. An instant is a number of
-- nanoseconds since 1970; a timestamp is the text `YYYY-MM-DD`, a separator, `hh:mm:ss` and a
-- zone, read as the number of its day, the second of that day and the zone. Two such texts are
-- compared by SQLite as texts: first the day, then the separator, then the second, then the zone.
pub mod Laws
use jd_shop_server.Common.{
  ℕ, ◌+◌, ◌-◌, ◌*◌, ◌/◌, ◌%◌, Bool, true, false, not, ◌&&◌, ◌||◌, Option, none, some, ltb, ◌==◌,
  if◌then◌else◌,
}

pub data Separator : Type 0 where
  space letter_t : Separator

-- `offset` minutes east or west of UTC, `Z`, or no zone at all.
pub data Zone : Type 0 where
  no_zone utc : Zone
  east west : ℕ → Zone

pub record Timestamp : Type 0 where
  pub day : ℕ
  pub separator : Separator
  pub second : ℕ
  pub zone : Zone

-- `' ' < 'T'`.
abbrev pub separator_rank : Separator → ℕ
separator_rank space = 0
separator_rank letter_t = 1

-- The end of the text, then `+`, `-` and `Z`.
abbrev pub zone_rank : Zone → ℕ
zone_rank no_zone = 0
zone_rank (east m) = 1
zone_rank (west m) = 2
zone_rank utc = 3

abbrev pub offset : Zone → ℕ
offset no_zone = 0
offset utc = 0
offset (east m) = m
offset (west m) = m

-- `a < b` between texts, as SQLite compares them.
unfoldable pub text_lt : Timestamp → Timestamp → Bool
text_lt a b =
    ltb a.day b.day
    || (a.day == b.day
        && (ltb (separator_rank a.separator) (separator_rank b.separator)
            || (separator_rank a.separator == separator_rank b.separator
                && (ltb a.second b.second
                    || (a.second == b.second
                        && (ltb (zone_rank a.zone) (zone_rank b.zone)
                            || (zone_rank a.zone == zone_rank b.zone
                                && ltb (offset a.zone) (offset b.zone))))))))

-- `a <= b` between texts.
abbrev pub text_le : Timestamp → Timestamp → Bool
text_le a b = not (text_lt b a)

-- One second, one day.
abbrev pub nanos : ℕ
nanos = 1_000_000_000

abbrev pub seconds_per_day : ℕ
seconds_per_day = 86400

-- `t.UTC().Format(time.RFC3339)`, of the second `s` since 1970.
abbrev pub rfc3339_second : ℕ → Timestamp
rfc3339_second s = record {
  day = s / seconds_per_day;
  separator = letter_t;
  second = s % seconds_per_day;
  zone = utc;
}

unfoldable pub format_rfc3339 : ℕ → Timestamp
format_rfc3339 now = rfc3339_second (now / nanos)

-- SQLite's `datetime('now')`.
unfoldable pub sqlite_datetime : ℕ → Timestamp
sqlite_datetime now = record (rfc3339_second (now / nanos)) { separator = space; zone = no_zone }

-- The second since 1970 that a timestamp stands for.
unfoldable pub unix_second : Timestamp → ℕ
unix_second t = elim t.zone [
  | no_zone ↦ t.day * seconds_per_day + t.second
  | utc ↦ t.day * seconds_per_day + t.second
  | east m ↦ t.day * seconds_per_day + t.second - m * 60
  | west m ↦ t.day * seconds_per_day + t.second + m * 60
]

abbrev pub has_zone : Zone → Bool
has_zone no_zone = false
has_zone _ = true

abbrev pub is_letter_t : Separator → Bool
is_letter_t letter_t = true
is_letter_t space = false

-- `time.Parse(time.RFC3339, …)`, to the second since 1970.
unfoldable pub parse_rfc3339 : Timestamp → Option ℕ
unfolding unix_second
parse_rfc3339 t = if is_letter_t t.separator && has_zone t.zone then some (unix_second t) else none

-- `time.Parse("2006-01-02 15:04:05", …)`.
unfoldable pub parse_datetime : Timestamp → Option ℕ
unfolding unix_second
parse_datetime t =
    if not (is_letter_t t.separator) && not (has_zone t.zone) then some (unix_second t) else none

-- `now.After(t)`, for `t` at a full second.
abbrev pub is_after : ℕ → ℕ → Bool
is_after now second = ltb (second * nanos) now
