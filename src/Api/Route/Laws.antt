-- ===== src/Api/Route/Laws.antt =====
-- Which requests can reach the file system.
use easy_failover.Base.{
  ℕ, Text, codes, eqb, eqb_iff, true, not, Option, some, ◌≡◌, refl, arith, if_cases,
}
use easy_failover.Toml.{Toml}
use easy_failover.Api.Data.{
  LocalApiHttpRequest, LocalApiHttpResponse, LocalApiHttpSnapshot, LocalApiWriteContext,
  LocalApiConfigApplyResult,
}
use easy_failover.Api.Http.{trim_query_string}
use easy_failover.Api.Write.{FileSystem}
use easy_failover.Api.Route.{respond, apply_endpoint}

-- The one request that may write: a POST to the apply endpoint of a server with writes enabled.
abbrev pub MayWrite : LocalApiHttpRequest → LocalApiWriteContext → Type 0
MayWrite request write_context =
    (trim_query_string request.path ≡ codes "/api/v1/config/apply")
    × (request.method ≡ codes "POST")
    × (write_context.write_enabled ≡ true)

-- Every other request, to whatever path and with whatever body and credentials, is answered without a
-- change of the world: no call of the file system and no audit event.
pub respond_read_only :
    (T : Toml) (hostname : Option Text) {W : Type 0} (fs : FileSystem W)
    (emit_audit : Option (LocalApiHttpRequest → LocalApiConfigApplyResult → W → W)) (fuel : ℕ)
    (request : LocalApiHttpRequest) (snapshot : LocalApiHttpSnapshot)
    (write_context : LocalApiWriteContext) (w : W)
    → ¬ MayWrite request write_context
    → (response : LocalApiHttpResponse) × (respond T hostname fs emit_audit fuel request snapshot
          write_context w
        ≡ some (response, w))
unfolding respond apply_endpoint
respond_read_only T hostname fs emit_audit fuel request snapshot write_context w wrong =
    let Same : Option (LocalApiHttpResponse × _) → Type 0 =
      λ o. (response : LocalApiHttpResponse) × (o ≡ some (response, w)) in
    if_cases Same (eqb (trim_query_string request.path) (codes "/api/v1/config/apply")) _ _
      (λ here.
        if_cases Same (not write_context.write_enabled) _ _ (λ _. (_, refl))
          λ enabled.
            if_cases Same (not (eqb request.method (codes "POST"))) _ _ (λ _. (_, refl))
              λ post. absurd (
                wrong (
                  (eqb_iff (trim_query_string request.path) _).0 here,
                  (eqb_iff request.method (codes "POST")).0 (ground arith),
                  ground arith,
                )))
      (λ _. (_, refl))
