-- ===== src/Api/Tests.antt =====
-- A write by a client, on a small disk and a small config.
use easy_failover.Base.{
  ◌+◌, ◌≤◌, ◌<◌, ◌^◌, Text, codes, eqb, Bool, true, false, Option, none, some, [], ◌∷◌, ◌++◌,
  length, ◌≡◌, refl, ◌⊎◌, arith,
}
use easy_failover.Base.Decimal.{decimal}
use easy_failover.Base.Result.{ok}
use easy_failover.Base.Search.{cut, starts_with, skip, one_of, trim_end, cut_last, to_lower}
use easy_failover.Config.Decode.Sample.{sample_toml, sample-loads, sample-validates}
use easy_failover.Api.Data.{
  LocalApiHttpRequest, LocalApiWriteContext, LocalApiConfigApplyResult,
  LocalApiConfigValidateResponse, completed,
}
use easy_failover.Api.Json.{
  parse_json_string_value, json_string, json_chars, json_char, read_string,
}
use easy_failover.Api.Json.RoundTrip.{apply_body, parse_json_string_value-apply_body}
use easy_failover.Api.Auth.{constant_time_token_equals, parse_bearer_token}
use easy_failover.Api.Apply.{checked, token_checked, build_local_api_config_apply_result}
use easy_failover.Api.Apply.Checked.{HasShortTokens, IsAuthentic}
use easy_failover.Api.Apply.Safety.{apply_unauthenticated, apply_writes_valid_config}
use easy_failover.Api.Results.{applied_result}
use easy_failover.Api.Validate.{Accepts, build_local_api_config_validate_response}
use easy_failover.Api.Write.{
  atomic_write_config_with_backup, temp_path, directory_of, parent_path, filename, in_directory,
  write_all,
}
use easy_failover.Api.Write.Paths.{backup_of, target-ne-backup_of, backup_of-ne-temp_path}
use easy_failover.Api.Write.Atomic.{atomic_write_refines}
use easy_failover.Api.Write.Ends.{atomic_write_returns}
use easy_failover.Api.Write.Disk.{Disk, disk, files, disk-IsLawful, disk-IsPatient}

abbrev target : Text
target = codes "c"

abbrev before : Disk
before = record { contents = (target, codes "old") ∷ []; open_path = none; interruptions = 2 }

abbrev written : Option (Bool × Disk)
written = atomic_write_config_with_backup disk 10 target (codes "x") (backup_of target) before

abbrev after : Disk
after = elim written [ none ↦ before | some r ↦ r.1 ]

writes : written ≡ some (true, after)
unfolding atomic_write_config_with_backup write_all temp_path directory_of parent_path filename
    in_directory cut_last trim_end one_of decimal codes eqb backup_of
writes = refl

atomic_write_refines_example :
    (true ≡ true
      → (files after target ≡ some (codes "x"))
        × (disk.exists target before ≡ true → files after (backup_of target) ≡ files before target))
    × (true ≡ false → files after target ≡ files before target)
atomic_write_refines_example =
    atomic_write_refines disk-IsLawful 10 target (codes "x") (backup_of target) before true after
      (target-ne-backup_of target) (backup_of-ne-temp_path target) writes

enough : length (codes "x") + 2 < 10
unfolding codes
enough = omega arith

atomic_write_returns_example : (r : Bool × Disk) × (written ≡ some r)
atomic_write_returns_example =
    atomic_write_returns disk-IsPatient 10 target (codes "x") (backup_of target) before enough

parse_json_string_value-apply_body_example :
    (parse_json_string_value (apply_body (codes "toml") (codes "a\n\"b\"")) (codes "format")
      ≡ codes "toml")
    × (parse_json_string_value (apply_body (codes "toml") (codes "a\n\"b\"")) (codes "config")
        ≡ codes "a\n\"b\"")
parse_json_string_value-apply_body_example = parse_json_string_value-apply_body (codes "a\n\"b\"")

abbrev request_with : Text → LocalApiHttpRequest
request_with token = record {
  method = codes "POST";
  path = codes "/api/v1/config/apply";
  body = apply_body (codes "toml") (codes "x");
  authorization = codes "bearer " ++ token;
}

abbrev write_context : LocalApiWriteContext
write_context = record { write_enabled = true; config_path = target; auth_token = codes "t1" }

presented : parse_bearer_token (codes "bearer t1") ≡ some (codes "t1")
unfolding parse_bearer_token codes eqb to_lower skip trim_end one_of
presented = refl

presented_other : parse_bearer_token (codes "bearer t") ≡ some (codes "t")
unfolding parse_bearer_token codes eqb to_lower skip trim_end one_of
presented_other = refl

short :
    (token : Text)
    → length token < 2 ^ 32
    → parse_bearer_token (request_with token).authorization ≡ some token
    → HasShortTokens (request_with token) write_context
unfolding codes
short token l e = (omega arith, λ p h. let q : p ≡ token = cc (h, e) in rw q l)

few : (token : Text) → length token ≤ 2 → length token < 2 ^ 32
few token h = omega arith

valid : LocalApiConfigValidateResponse
valid = record {
  outcome = completed;
  valid = true;
  errors = [];
  error_code = [];
  error_message = [];
}

validates :
    build_local_api_config_validate_response sample_toml none
      (record { format = codes "toml"; config = codes "x" })
    ≡ valid
unfolding build_local_api_config_validate_response codes eqb valid
validates = rw sample-loads (rw sample-validates refl)

accepted : checked sample_toml none (request_with (codes "t1")) write_context ≡ ok (codes "x")
unfolding checked parse_bearer_token constant_time_token_equals parse_json_string_value cut
    starts_with skip one_of trim_end to_lower codes eqb json_string json_chars json_char read_string
    token_checked valid
accepted = rw (checked, validates) refl

applies :
    build_local_api_config_apply_result sample_toml none disk 10
      (request_with (codes "t1"))
      write_context
      before
    ≡ some (applied_result target, after)
unfolding build_local_api_config_apply_result
applies = rw (build_local_api_config_apply_result, accepted, writes) refl

apply_writes_valid_config_example :
    (true ≡ true
      → IsAuthentic (request_with (codes "t1")) write_context
        × Accepts sample_toml none
            (parse_json_string_value (request_with (codes "t1")).body (codes "config"))
        × (files after target
            ≡ some (parse_json_string_value (request_with (codes "t1")).body (codes "config")))
        × (disk.exists target before ≡ true → files after (backup_of target) ≡ files before target))
    × (true ≡ false → files after target ≡ files before target)
unfolding applied_result codes
apply_writes_valid_config_example =
    apply_writes_valid_config sample_toml none disk-IsLawful 10 (request_with (codes "t1"))
      write_context before after (applied_result target)
      (short (codes "t1") (few (codes "t1") (omega arith)) presented) applies

not-IsAuthentic : ¬ IsAuthentic (request_with (codes "t")) write_context
unfolding codes
not-IsAuthentic h = cc (h.0, presented_other)

apply_unauthenticated_example :
    (r : LocalApiConfigApplyResult) × (build_local_api_config_apply_result sample_toml none disk 10
        (request_with (codes "t"))
        write_context
        before
      ≡ some (r, before))
    × ((r.status_code ≡ 401) ⊎ (r.status_code ≡ 403))
unfolding codes
apply_unauthenticated_example =
    apply_unauthenticated sample_toml none disk 10 (request_with (codes "t")) write_context before
      (short (codes "t") (few (codes "t") (omega arith)) presented_other) not-IsAuthentic
