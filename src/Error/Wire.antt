-- ===== src/Error/Wire.antt =====
-- The JSON of an error body (src/error.rs).
use paratro_sdk_rust.Base.{Option, some}
use paratro_sdk_rust.Base.Str.{codes}
use paratro_sdk_rust.Error.{ErrorBody}
use paratro_sdk_rust.Json.{str, Fields, end, field, Reader, text, fields_of, required, ◌>>=◌}

unfoldable pub error_body_fields : ErrorBody → Fields
error_body_fields r =
    field (codes "code") (str r.code)
      (field (codes "type") (str r.error_type) (field (codes "message") (str r.message) end))

unfoldable pub error_body_from : Fields → Option ErrorBody
error_body_from fs = do
  code ← required text (codes "code") fs
  error_type ← required text (codes "type") fs
  message ← required text (codes "message") fs
  some (record { code = code; error_type = error_type; message = message })

abbrev pub error_body : Reader ErrorBody
error_body v = fields_of v >>= error_body_from
