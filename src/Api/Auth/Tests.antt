-- ===== src/Api/Auth/Tests.antt =====
-- Start-ups with a token of two lines' ends, without one, and read-only.
use easy_failover.Base.{◌≡◌, refl, codes, Bool, true, false, none, some}
use easy_failover.Base.Search.{trim_end}
use easy_failover.Config.{ApiConfig}
use easy_failover.Api.Data.{ready, rejected}
use easy_failover.Api.Auth.{load_api_auth_token, evaluate_local_api_startup, startup}

abbrev config : Bool → ApiConfig
config read_only = record {
  enabled = true;
  bind = codes "b";
  read_only = read_only;
  auth_token_file = codes "t";
}

load_api_auth_token_trimmed :
    load_api_auth_token (λ _. some (codes " key \n")) (codes "t") ≡ some (codes " key")
unfolding load_api_auth_token trim_end codes
load_api_auth_token_trimmed = refl

started_writable :
    evaluate_local_api_startup (λ _. some (codes "key")) (config false)
    ≡ record { state = ready; bind = codes "b"; detail = codes "local API write listener ready" }
unfolding evaluate_local_api_startup load_api_auth_token startup trim_end codes
started_writable = refl

started_blank : evaluate_local_api_startup (λ _. some (codes "\n")) (config false) ≡ record {
  state = rejected;
  bind = codes "b";
  detail = codes "write mode requires a non-empty api.auth_token_file";
}
unfolding evaluate_local_api_startup load_api_auth_token startup trim_end codes
started_blank = refl

started_without_file : evaluate_local_api_startup (λ _. none) (config false) ≡ record {
  state = rejected;
  bind = codes "b";
  detail = codes "write mode requires a readable api.auth_token_file";
}
unfolding evaluate_local_api_startup load_api_auth_token startup trim_end codes
started_without_file = refl
