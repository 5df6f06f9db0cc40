-- ===== src/Capability/Canonical.antt =====
-- capability.rs, contract.rs: a normalised name is normalised already.
use zincha_sdk.Base.{
  ℕ, ◌+◌, ◌≡◌, refl, sym, ap, ◌∙◌, inl, inr, not, ◌||◌, [], ◌∷◌, arith, ltb, if◌then◌else◌,
  Bool-cases, length, ◌==◌, nat_eq, list_eq, option_eq, Result, ok, err, ◌>>=◌, ◌>>◌, fail_if,
  fail_if-passed, >>=-eq-ok,
}
use zincha_sdk.Chars.{
  Chars, trim, trim_start, trim_end, push_trimmed, to_ascii_lowercase, is_whitespace,
  is_ascii_uppercase, str_len, starts_with, ends_with,
}
use zincha_sdk.Chars.Trim.{trim_idem}
use zincha_sdk.Capability.{
  NameError, is_missing, too_long, not_lowercase, forbidden_char, dot_at_end, is_route_char,
  check_slug, normalize_capability_slug, normalize_capability_slug_field, copy_route_name,
  validate_and_normalize_contract_route_name,
}

>>-ok :
    (m : Result NameError (Unit {0})) (v : Chars) {x : Chars}
    → (m >> ok v) ≡ ok x
    → (x ≡ v) × (m ≡ ok tt)
>>-ok (ok u) v h = (cc, refl)
>>-ok (err e) v h = cc

slug-fixed :
    (raw : Chars) {slug : Chars}
    → normalize_capability_slug raw ≡ ok slug
    → (slug ≡ trim raw) × (normalize_capability_slug slug ≡ ok slug)
unfolding normalize_capability_slug
slug-fixed raw {slug = slug} h =
    let (same, passed) = >>-ok (check_slug (trim raw)) (trim raw) h in
    let again : trim slug ≡ trim raw = ap trim same ∙ trim_idem raw in
    (
      same,
      ap (λ s. check_slug s >> ok s) again ∙ ap (λ m. m >> ok (trim raw)) passed ∙ ap ok (sym same),
    )

lower_whitespace :
    (ch : ℕ) → is_whitespace (if is_ascii_uppercase ch then ch + 32 else ch) ≡ is_whitespace ch
lower_whitespace ch = ground arith

lower-trim_start :
    (s : Chars) → trim_start (to_ascii_lowercase s) ≡ to_ascii_lowercase (trim_start s)
unfolding trim_start
lower-trim_start [] = refl
lower-trim_start (ch ∷ s) = elim (Bool-cases (is_whitespace ch)) [
  | inl white ↦ rw white (rw (lower_whitespace ch ∙ white) (lower-trim_start s))
  | inr black ↦ rw black (rw (lower_whitespace ch ∙ black) refl)
]

lower-push :
    (ch : ℕ) (s : Chars)
    → push_trimmed (if is_ascii_uppercase ch then ch + 32 else ch) (to_ascii_lowercase s)
      ≡ to_ascii_lowercase (push_trimmed ch s)
lower-push ch [] = elim (Bool-cases (is_whitespace ch)) [
  | inl white ↦ rw white (rw (lower_whitespace ch ∙ white) refl)
  | inr black ↦ rw black (rw (lower_whitespace ch ∙ black) refl)
]
lower-push ch (x ∷ s) = refl

lower-trim_end : (s : Chars) → trim_end (to_ascii_lowercase s) ≡ to_ascii_lowercase (trim_end s)
unfolding trim_end
lower-trim_end [] = refl
lower-trim_end (ch ∷ s) =
    ap (push_trimmed (if is_ascii_uppercase ch then ch + 32 else ch)) (lower-trim_end s)
    ∙ lower-push ch (trim_end s)

lower-trim : (s : Chars) → trim (to_ascii_lowercase s) ≡ to_ascii_lowercase (trim s)
unfolding trim
lower-trim s = ap trim_end (lower-trim_start s) ∙ lower-trim_end (trim_start s)

lower_idem : (s : Chars) → to_ascii_lowercase (to_ascii_lowercase s) ≡ to_ascii_lowercase s
lower_idem [] = refl
lower_idem (ch ∷ s) =
    let head : (if is_ascii_uppercase (if is_ascii_uppercase ch then ch + 32 else ch)
          then (if is_ascii_uppercase ch then ch + 32 else ch) + 32
          else (if is_ascii_uppercase ch then ch + 32 else ch))
        ≡ (if is_ascii_uppercase ch then ch + 32 else ch) =
      ground arith in
    ap (λ x. x ∷ to_ascii_lowercase (to_ascii_lowercase s)) head
    ∙ ap (λ l. (if is_ascii_uppercase ch then ch + 32 else ch) ∷ l) (lower_idem s)

-- A slug that the wallet sends is the trimmed text in lower case, is one that
-- `normalize_capability_slug` takes and leaves alone, and normalising it again sends the same.
pub slug_field-canonical :
    (value : Chars) {sent : Chars}
    → normalize_capability_slug_field value ≡ ok sent
    → (sent ≡ to_ascii_lowercase (trim value))
      × (normalize_capability_slug sent ≡ ok sent)
      × (normalize_capability_slug_field sent ≡ ok sent)
unfolding normalize_capability_slug_field
slug_field-canonical value {sent = sent} h =
    let lower = to_ascii_lowercase (trim value) in
    let (slug, accepted, whole) = >>=-eq-ok (normalize_capability_slug lower) (λ _. ok lower) h in
    let same : sent ≡ lower = cc in
    let trimmed : trim lower ≡ lower =
      lower-trim (trim value) ∙ ap to_ascii_lowercase (trim_idem value) in
    let (is_trim, fixed) = slug-fixed lower accepted in
    let slug_same : slug ≡ lower = is_trim ∙ trimmed in
    let takes : normalize_capability_slug lower ≡ ok lower = accepted ∙ ap ok slug_same in
    let again : to_ascii_lowercase (trim sent) ≡ sent =
      ap (λ s. to_ascii_lowercase (trim s)) same
      ∙ ap to_ascii_lowercase trimmed
      ∙ lower_idem (trim value)
      ∙ sym same in
    let kept : normalize_capability_slug sent ≡ ok sent =
      ap normalize_capability_slug same ∙ takes ∙ ap ok (sym same) in
    (
      same,
      kept,
      ap (λ s. normalize_capability_slug s >>= λ _. ok s) again ∙ ap (λ m. m >>= λ _. ok sent) kept,
    )

copy-same : (chars : Chars) {copied : Chars} → copy_route_name chars ≡ ok copied → copied ≡ chars
copy-same [] h = cc
copy-same (ch ∷ chars) {copied = copied'} h =
    let (up, rest) =
      fail_if-passed (is_ascii_uppercase ch) not_lowercase
        (fail_if (not (is_route_char ch)) forbidden_char
          >> (copy_route_name chars >>= λ copied. ok (ch ∷ copied)))
        h in
    let (odd, tail) =
      fail_if-passed (not (is_route_char ch)) forbidden_char
        (copy_route_name chars >>= λ copied. ok (ch ∷ copied)) rest in
    let (copied, eq, whole) = >>=-eq-ok (copy_route_name chars) (λ copied. ok (ch ∷ copied)) tail in
    let same = copy-same chars eq in cc

abbrev route_checked : Chars → Result NameError Chars
route_checked trimmed =
    fail_if (length trimmed == 0) is_missing
    >> (fail_if (ltb 64 (str_len trimmed)) too_long
        >> (fail_if (starts_with 46 trimmed || ends_with 46 trimmed) dot_at_end
            >> copy_route_name trimmed))

-- A normalised route name is the trimmed text, and normalising it again leaves it alone: each route has
-- one key.
pub route_name-canonical :
    (route_name : Chars) {normalized : Chars}
    → validate_and_normalize_contract_route_name route_name ≡ ok normalized
    → (normalized ≡ trim route_name)
      × (validate_and_normalize_contract_route_name normalized ≡ ok normalized)
unfolding validate_and_normalize_contract_route_name
route_name-canonical route_name {normalized = normalized} h =
    let trimmed = trim route_name in
    let (some_char, h1) =
      fail_if-passed (length trimmed == 0) is_missing
        (fail_if (ltb 64 (str_len trimmed)) too_long
          >> (fail_if (starts_with 46 trimmed || ends_with 46 trimmed) dot_at_end
              >> copy_route_name trimmed))
        h in
    let (short, h2) =
      fail_if-passed (ltb 64 (str_len trimmed)) too_long
        (fail_if (starts_with 46 trimmed || ends_with 46 trimmed) dot_at_end
          >> copy_route_name trimmed)
        h1 in
    let (dots, copied) =
      fail_if-passed (starts_with 46 trimmed || ends_with 46 trimmed) dot_at_end
        (copy_route_name trimmed) h2 in
    let same = copy-same trimmed copied in
    (same, ap route_checked (ap trim same ∙ trim_idem route_name) ∙ h)
