-- ===== src/Capability.antt =====
-- crates/zincha-primitives/src/primitives/{capability,contract}.rs and wallet/agent_wallet.rs: the names
-- of capabilities and of contract routes, in their one accepted form.
pub mod Canonical
mod Tests
use zincha_sdk.Base.{
  ℕ, Bool, false, not, ◌&&◌, ◌||◌, List, [], ◌∷◌, ltb, length, ◌==◌, nat_eq, list_eq, option_eq,
  Result, ok, err, ◌>>=◌, ◌>>◌, fail_if,
}
use zincha_sdk.Chars.{
  Chars, str_len, trim, split, starts_with, ends_with, to_ascii_lowercase, is_ascii_uppercase,
  is_ascii_lowercase, is_ascii_digit, all_chars, any_char,
}

pub data NameError : Type 0 where
  is_missing too_long not_lowercase forbidden_char empty_segment wrong_segment_count : NameError
  wrong_segment_start wrong_segment_char dot_at_end : NameError

-- '/', '_', ' ', '\t', '\n', '\r'
abbrev is_forbidden : ℕ → Bool
is_forbidden ch = ch == 47 || ch == 95 || ch == 32 || ch == 9 || ch == 10 || ch == 13

-- `contains("..")`
abbrev has_two_dots : Chars → Bool
has_two_dots [] = false
has_two_dots (x ∷ []) = false
has_two_dots (x ∷ y ∷ s) = let later = has_two_dots (y ∷ s) in (x == 46 && y == 46) || later

abbrev is_segment_char : ℕ → Bool
is_segment_char ch = is_ascii_lowercase ch || is_ascii_digit ch || ch == 45

abbrev check_segment : Chars → Result NameError (Unit {0})
check_segment [] = err empty_segment
check_segment (first ∷ chars) =
    fail_if (not (is_ascii_lowercase first)) wrong_segment_start
    >> fail_if (not (all_chars is_segment_char chars)) wrong_segment_char

-- the loop over the segments
abbrev check_segments : List Chars → Result NameError (Unit {0})
check_segments [] = ok tt
check_segments (segment ∷ segments) = check_segment segment >> check_segments segments

-- the checks of `normalize_capability_slug`, of the trimmed slug
abbrev pub check_slug : Chars → Result NameError (Unit {0})
check_slug value = do
  fail_if (length value == 0) is_missing
  fail_if (ltb 128 (str_len value)) too_long
  fail_if (not (value == to_ascii_lowercase value)) not_lowercase
  fail_if (any_char is_forbidden value) forbidden_char
  fail_if (starts_with 46 value || ends_with 46 value || has_two_dots value) empty_segment
  fail_if (ltb (length (split 46 value)) 2 || ltb 8 (length (split 46 value))) wrong_segment_count
  check_segments (split 46 value)

unfoldable pub normalize_capability_slug : Chars → Result NameError Chars
normalize_capability_slug raw = check_slug (trim raw) >> ok (trim raw)

-- AgentWallet::normalize_capability_slug_field
unfoldable pub normalize_capability_slug_field : Chars → Result NameError Chars
unfolding normalize_capability_slug
normalize_capability_slug_field value =
    let normalized = to_ascii_lowercase (trim value) in
    normalize_capability_slug normalized >>= λ _. ok normalized

-- AgentWallet::normalize_capability_slug_list
unfoldable pub normalize_capability_slug_list : List Chars → Result NameError (List Chars)
unfolding normalize_capability_slug_field
normalize_capability_slug_list [] = ok []
normalize_capability_slug_list (value ∷ values) = do
  normalized ← normalize_capability_slug_field value
  rest ← normalize_capability_slug_list values
  ok (normalized ∷ rest)

-- '-', '_', '.'
abbrev pub is_route_char : ℕ → Bool
is_route_char ch = is_ascii_lowercase ch || is_ascii_digit ch || ch == 45 || ch == 95 || ch == 46

-- the loop over the characters, which copies the name
abbrev pub copy_route_name : Chars → Result NameError Chars
copy_route_name [] = ok []
copy_route_name (ch ∷ chars) =
    fail_if (is_ascii_uppercase ch) not_lowercase
    >> (fail_if (not (is_route_char ch)) forbidden_char
        >> (copy_route_name chars >>= λ copied. ok (ch ∷ copied)))

unfoldable pub validate_and_normalize_contract_route_name : Chars → Result NameError Chars
validate_and_normalize_contract_route_name route_name =
    let trimmed = trim route_name in
    fail_if (length trimmed == 0) is_missing
    >> (fail_if (ltb 64 (str_len trimmed)) too_long
        >> (fail_if (starts_with 46 trimmed || ends_with 46 trimmed) dot_at_end
            >> copy_route_name trimmed))
