-- ===== src/Api/Apply/Safety.antt =====
-- Who may write, and what is written.
use easy_failover.Base.{
  ℕ, Text, codes, Bool, true, false, Option, some, Option-cases, ◌≡◌, refl, sym, ap, ◌∙◌, ◌⊎◌, inl,
  inr,
}
use easy_failover.Base.Result.{Result-cases}
use easy_failover.Toml.{Toml}
use easy_failover.Api.Data.{LocalApiConfigApplyResult, LocalApiWriteContext, LocalApiHttpRequest}
use easy_failover.Api.Json.{parse_json_string_value}
use easy_failover.Api.Write.{FileSystem, atomic_write_config_with_backup}
use easy_failover.Api.Write.Laws.{IsLawful}
use easy_failover.Api.Write.Paths.{backup_of, target-ne-backup_of, backup_of-ne-temp_path}
use easy_failover.Api.Write.Atomic.{atomic_write_refines}
use easy_failover.Api.Results.{internal_error_result, applied_result}
use easy_failover.Api.Validate.{Accepts}
use easy_failover.Api.Apply.Checked.{
  IsAuthentic, HasShortTokens, authenticated-ok, checked-ok, checked-IsRefusal,
  authenticated_status,
}
use easy_failover.Api.Apply.{
  authenticated, checked, persisted, finished, build_local_api_config_apply_result,
}

applied_iff :
    (T : Toml) (hostname : Option Text) (path : Text) (done : Bool) (r : LocalApiConfigApplyResult)
    → r ≡ persisted T hostname path done
    → r.applied ≡ done
unfolding persisted applied_result internal_error_result
applied_iff T hostname path true r e = ap (λ (x : LocalApiConfigApplyResult). x.applied) e
applied_iff T hostname path false r e = ap (λ (x : LocalApiConfigApplyResult). x.applied) e

module _ (T : Toml) (hostname : Option Text) {W : Type 0} {fs : FileSystem W}
    {files : W → Text → Option Text} {opened : W → ℕ → Option Text}
    (lawful : IsLawful fs files opened) where
  files-finished :
      (fuel : ℕ) (path text : Text) (w w' : W) (r : LocalApiConfigApplyResult)
      → finished T hostname fs path
          (atomic_write_config_with_backup fs fuel path text (backup_of path) w)
        ≡ some (r, w')
      → (r.applied ≡ true
          → (files w' path ≡ some text)
            × (fs.exists path w ≡ true → files w' (backup_of path) ≡ files w path))
        × (r.applied ≡ false → files w' path ≡ files w path)
  unfolding persisted
  files-finished fuel path text w w' r e =
      elim (Option-cases (atomic_write_config_with_backup fs fuel path text (backup_of path) w)) [
        | inl k ↦ absurd (cc (rw k at e))
        | inr ((done, w2), k) ↦
            let (written, kept) =
              atomic_write_refines lawful fuel path text (backup_of path) w done w2
                (target-ne-backup_of path) (backup_of-ne-temp_path path) k in
            let h = rw k at e in
            let same : r.applied ≡ done = applied_iff T hostname path done r cc in
            (
              λ y.
                  let (new, old) = written (sym same ∙ y) in
                  (cc (h, new), λ there. cc (h, old there)),
              λ n. cc (h, kept (sym same ∙ n)),
            )
      ]

-- Unless the request carries the token of the write context, and that token is not empty, applying it
-- answers 401 or 403 and calls nothing of the file system, if the tokens are shorter than 2 ^ 32 bytes.
pub apply_unauthenticated :
    (T : Toml) (hostname : Option Text) {W : Type 0} (fs : FileSystem W) (fuel : ℕ)
    (request : LocalApiHttpRequest) (write_context : LocalApiWriteContext) (w : W)
    → HasShortTokens request write_context
    → ¬ IsAuthentic request write_context
    → (r : LocalApiConfigApplyResult) × (build_local_api_config_apply_result T hostname fs fuel
          request write_context w
        ≡ some (r, w))
      × ((r.status_code ≡ 401) ⊎ (r.status_code ≡ 403))
unfolding build_local_api_config_apply_result
apply_unauthenticated T hostname fs fuel request write_context w short wrong =
    elim (Result-cases (authenticated request write_context)) [
      | inl (t, e) ↦ absurd (wrong (authenticated-ok request write_context t short e))
      | inr (r, e) ↦ (
        r,
        rw (e, build_local_api_config_apply_result, checked) refl,
        authenticated_status request write_context r e,
      )
    ]

-- Over a file system whose calls have their documented effects: a request that is reported as applied
-- carried the token, the config member of its body loads and passes validation, and the config file
-- then holds exactly that text and the backup what a config file there held before; any other result
-- leaves the config file as it was.
pub apply_writes_valid_config :
    (T : Toml) (hostname : Option Text) {W : Type 0} {fs : FileSystem W}
    {files : W → Text → Option Text} {opened : W → ℕ → Option Text}
    (lawful : IsLawful fs files opened) (fuel : ℕ) (request : LocalApiHttpRequest)
    (write_context : LocalApiWriteContext) (w w' : W) (r : LocalApiConfigApplyResult)
    → HasShortTokens request write_context
    → build_local_api_config_apply_result T hostname fs fuel request write_context w ≡ some (r, w')
    → (r.applied ≡ true
        → IsAuthentic request write_context
          × Accepts T hostname (parse_json_string_value request.body (codes "config"))
          × (files w' write_context.config_path
              ≡ some (parse_json_string_value request.body (codes "config")))
          × (fs.exists write_context.config_path w ≡ true
              → files w' (backup_of write_context.config_path) ≡ files w write_context.config_path))
      × (r.applied ≡ false → files w' write_context.config_path ≡ files w write_context.config_path)
unfolding build_local_api_config_apply_result
apply_writes_valid_config T hostname lawful fuel request write_context w w' r short e =
    elim (Result-cases (checked T hostname request write_context)) [
      | inl (text, c) ↦
          let (known, same, accepts) = checked-ok T hostname request write_context text short c in
          let (done, undone) =
            files-finished T hostname lawful fuel write_context.config_path text w w' r
              (rw (c, build_local_api_config_apply_result) at e) in
          (
            λ y.
                let (new, old) = done y in
                (known, (rw (sym same) accepts), (rw (sym same) new), old),
            undone,
          )
      | inr (refusal, c) ↦
          let h = rw (c, build_local_api_config_apply_result) at e in
          let not_applied = checked-IsRefusal T hostname request write_context refusal c in
          (λ y. absurd (cc (h, y, not_applied)), λ _. cc h)
    ]
