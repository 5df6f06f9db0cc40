-- ===== src/Contract/Route.antt =====
-- contract.rs: the keys of contract routes, and the check of a call through a route.
use zincha_sdk.Base.{ℕ, ◌≡◌, ap, ◌∙◌, sym, Option, Result, ok, err, ◌>>=◌, ok_or, >>=-eq-ok}
use zincha_sdk.Crypto.Bytes.{Address}
use zincha_sdk.Chars.{Chars}
use zincha_sdk.Capability.{NameError, validate_and_normalize_contract_route_name}
use zincha_sdk.Capability.Canonical.{route_name-canonical}
use zincha_sdk.Contract.Record.{
  ContractRecord, ContractRouteRecord, ContractError, route_not_found, invalid_route_name,
  validate_top_level_contract_call_target,
}

pub record ContractRouteKey : Type 0 where
  pub deployer : Address
  pub route_name : Chars

-- ContractRouteKey::new
unfoldable pub new_route_key : Address → Chars → Result NameError ContractRouteKey
new_route_key deployer route_name = do
  normalized ← validate_and_normalize_contract_route_name route_name
  ok (record { deployer = deployer; route_name = normalized })

-- `?`, into the error of the call
abbrev pub or_invalid_name :
    Result NameError ContractRouteKey → Result ContractError ContractRouteKey
or_invalid_name (ok key) = ok key
or_invalid_name (err e) = err invalid_route_name

unfoldable pub validate_top_level_contract_route_call_target :
    Address
    → Chars
    → ℕ
    → Option ContractRouteRecord
    → Option ContractRecord
    → Result ContractError (ContractRouteRecord × ContractRecord)
unfolding new_route_key
validate_top_level_contract_route_call_target deployer route_name gas_limit route contract = do
  key ← or_invalid_name (new_route_key deployer route_name)
  found ← ok_or route route_not_found
  target ← validate_top_level_contract_call_target gas_limit contract
  ok (found, target)

-- A route has one key: making a key from the name of a key gives that key.
new_route_key_idem :
    (deployer : Address) (route_name : Chars) {key : ContractRouteKey}
    → new_route_key deployer route_name ≡ ok key
    → new_route_key deployer key.route_name ≡ ok key
unfolding new_route_key
new_route_key_idem deployer route_name {key = key} h =
    let make : Chars → Result NameError ContractRouteKey =
      λ normalized. ok (record { deployer = deployer; route_name = normalized }) in
    let (normalized, named, made) =
      >>=-eq-ok (validate_and_normalize_contract_route_name route_name) make h in
    let same : normalized ≡ key.route_name = cc in
    let again = (route_name-canonical route_name named).1 in
    ap (λ s. validate_and_normalize_contract_route_name s >>= make) (sym same)
    ∙ ap (λ m. m >>= make) again
    ∙ made
