-- ===== src/Loader/ChainInfo/Ids.antt =====
-- loader/chain_info.go: chain ids between texts and integers. strconv.ParseInt, whose error these
-- functions drop, returns the nearest number of its size where the text is out of range.
use utils_go.Base.{
  ℕ, ◌+◌, ◌-◌, ◌*◌, ◌^◌, Option, Bool, true, false, not, List, [], ◌∷◌, map, ltb, leb, nat_beq,
  if◌then◌else◌,
}
use utils_go.Base.Int.{ℤ, pos, negsuc, wrap_i32}
use utils_go.Base.Text.{Text}
use utils_go.Base.Decimal.{is_digit, format_int}
use utils_go.Convert.{string_to_int}
use utils_go.Loader.ChainInfo.{ChainInfo, ChainInfoManager, get_chain_info_by_chain_id}

-- How strconv.ParseUint ends: a number, ErrSyntax or ErrRange. It stops at the first digit with which
-- the number is too large.
pub data Scan : Type 0 where
  number : ℕ → Scan
  bad_syntax : Scan
  bad_range : Scan

unfoldable pub scan_digits : ℕ → ℕ → Text → Scan
unfolding is_digit
scan_digits max acc [] = number acc
scan_digits max acc (c ∷ s) =
    let next = acc * 10 + (c - b'0') in
    let rest = scan_digits max next s in
    if not (is_digit c) then bad_syntax else if ltb max next then bad_range else rest

unfoldable pub scan_uint : ℕ → Text → Scan
unfolding scan_digits
scan_uint max [] = bad_syntax
scan_uint max (c ∷ s) = scan_digits max 0 (c ∷ s)

-- -n
unfoldable pub negated : ℕ → ℤ
negated n = if nat_beq n 0 then pos 0 else negsuc (n - 1)

-- The result of ParseInt for a cutoff of 2 ^ (bits - 1), the error dropped.
unfoldable pub clamped : ℕ → Bool → Scan → ℤ
unfolding negated
clamped cutoff negative bad_syntax = pos 0
clamped cutoff true bad_range = negated cutoff
clamped cutoff false bad_range = pos (cutoff - 1)
clamped cutoff true (number n) = if ltb cutoff n then negated cutoff else negated n
clamped cutoff false (number n) = if leb cutoff n then pos (cutoff - 1) else pos n

-- n, _ := strconv.ParseInt(s, 10, bits), where the cutoff is half of 2 ^ bits
unfoldable pub parse_dropped : ℕ → Text → ℤ
unfolding scan_uint clamped
parse_dropped cutoff [] = pos 0
parse_dropped cutoff (c ∷ s) =
    let max = cutoff * 2 - 1 in
    if nat_beq c b'-'
    then clamped cutoff true (scan_uint max s)
    else if nat_beq c b'+'
    then clamped cutoff false (scan_uint max s)
    else clamped cutoff false (scan_uint max (c ∷ s))

module _ {C : Type 0} where
  unfoldable pub get_int32_chain_id : ChainInfo C → ℤ
  unfolding parse_dropped wrap_i32
  get_int32_chain_id ci = wrap_i32 (parse_dropped (2 ^ 31) ci.row.chain_id)

  unfoldable pub get_int64_chain_id : ChainInfo C → ℤ
  unfolding parse_dropped
  get_int64_chain_id ci = parse_dropped (2 ^ 63) ci.row.chain_id

  unfoldable pub get_chain_info_by_int32_chain_id : ChainInfoManager C → ℤ → Option (ChainInfo C)
  unfolding get_chain_info_by_chain_id format_int
  get_chain_info_by_int32_chain_id mgr chain_id =
      get_chain_info_by_chain_id mgr (format_int chain_id)

  unfoldable pub get_chain_info_by_int64_chain_id : ChainInfoManager C → ℤ → Option (ChainInfo C)
  unfolding get_chain_info_by_chain_id format_int
  get_chain_info_by_int64_chain_id mgr chain_id =
      get_chain_info_by_chain_id mgr (format_int chain_id)

  unfoldable pub get_chain_info_ids : ChainInfoManager C → List ℤ
  unfolding string_to_int wrap_i32
  get_chain_info_ids mgr = map (λ entry. string_to_int wrap_i32 entry.0) mgr.tables.chain_id_chains
