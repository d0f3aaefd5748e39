-- ===== src/ApiErrors/Laws.antt =====
-- What clients learn from an API error.
use computing_api.Base.{Str, arith, inl, inr, none, refl, some, ◌↔◌, ◌≡◌, ◌⊎◌}
use computing_api.ApiErrors.{
  ServiceError, data_store_error, err_address, error_codes, or_zero_value, to_api_error_code,
  unnamed,
}

unlisted :
    (e : ServiceError)
    → ((to_api_error_code (some e)).http_status_code ≡ 500)
      ↔ (((m : Str) × (e ≡ unnamed m)) ⊎ ((m : Str) × (e ≡ data_store_error m)))
unfolding to_api_error_code
unlisted (unnamed m) = (λ h. inl (m, refl), λ h. refl)
unlisted (data_store_error m) = (λ h. inr (m, refl), λ h. refl)
unlisted e =
    (λ h. absurd (omega arith), elim [ inl (m, same) ↦ absurd (cc) | inr (m, same) ↦ absurd (cc) ])

-- The status of an API error is 500 exactly for an error of a type that the switch does not name,
-- which the struct `DataStoreError` is one of; the absence of an error is told as an address error.
to_api_error_code-status :
    (e : ServiceError)
    → (((to_api_error_code (some e)).http_status_code ≡ 500)
        ↔ (((m : Str) × (e ≡ unnamed m)) ⊎ ((m : Str) × (e ≡ data_store_error m))))
      × (to_api_error_code none ≡ or_zero_value (error_codes err_address))
unfolding to_api_error_code
to_api_error_code-status e = (unlisted e, refl)
