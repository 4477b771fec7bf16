-- ===== src/Storage/Timestamps.antt =====
-- The times and ids of versions (crates/vpn/src/storage/version.rs).
pub mod Ids
use lan_link.Prelude.{
  ℕ, zero, suc, ◌+◌, ◌-◌, ◌*◌, ◌/◌, ◌%◌, List, [], ◌∷◌, ◌++◌, length, ltb, leb, if◌then◌else◌,
}

-- The decimal digits of a number of at most `fuel` digits, before what follows.
unfoldable pub decimal : ℕ → ℕ → List ℕ → List ℕ
decimal zero n after = after
decimal (suc fuel) n after =
    let rest = decimal fuel (n / 10) ((48 + n % 10) ∷ after) in
    if ltb n 10 then (48 + n) ∷ after else rest

unfoldable pub zeros : ℕ → List ℕ
zeros zero = []
zeros (suc n) = 48 ∷ zeros n

-- `{:0w}` of an integer of at most 64 bits, which has at most 20 digits.
unfoldable pub padded : ℕ → ℕ → List ℕ
unfolding decimal zeros
padded w n = let ds = decimal 20 n [] in zeros (w - length ds) ++ ds

-- Year, month and day of a day since 1970. The source counts in i64, which no step leaves below 0
-- for a day that is not negative.
unfoldable pub civil_date_from_days : ℕ → ℕ × ℕ × ℕ
civil_date_from_days days =
    let z = days + 719468 in
    let era = z / 146097 in
    let doe = z - era * 146097 in
    let yoe = (doe - doe / 1460 + doe / 36524 - doe / 146096) / 365 in
    let y = yoe + era * 400 in
    let doy = doe - (365 * yoe + yoe / 4 - yoe / 100) in
    let mp = (5 * doy + 2) / 153 in
    let d = doy - (153 * mp + 2) / 5 + 1 in
    let m = if ltb mp 10 then mp + 3 else mp - 9 in
    let year = if leb m 2 then y + 1 else y in (year, m, d)

unfoldable pub format_timestamp : ℕ → List ℕ
unfolding padded civil_date_from_days
format_timestamp unix_secs =
    let time_in_day = unix_secs % 86400 in
    let date = civil_date_from_days (unix_secs / 86400) in
    padded 4 date.0
    ++ (padded 2 date.1
        ++ (padded 2 date.2
            ++ (padded 2 (time_in_day / 3600)
                ++ (padded 2 (time_in_day % 3600 / 60) ++ padded 2 (time_in_day % 60)))))

-- `format!("{}-{:04}", timestamp, seq)`
unfoldable pub version_id_of : ℕ → ℕ → List ℕ
unfolding format_timestamp padded
version_id_of now seq = format_timestamp now ++ (45 ∷ padded 4 seq)
