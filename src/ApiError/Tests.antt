-- ===== src/ApiError/Tests.antt =====
-- Examples of indexer/internal/apierror.
use pulsar_app.Base.{◌≡◌}
use pulsar_app.ApiError.{code_status, code_class, code_rate_limited}
use pulsar_app.ApiError.Catalog.{class_status, code_status-code_class}

code_status-code_class_test :
    code_status code_rate_limited ≡ class_status (code_class code_rate_limited)
code_status-code_class_test = code_status-code_class code_rate_limited
