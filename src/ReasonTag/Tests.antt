-- ===== src/ReasonTag/Tests.antt =====
-- Known and unknown tags (src/reason_tag.rs).
use paratro_sdk_rust.Base.{arith, All, some, ◌≤◌, ◌≡◌, refl, true, false, length}
use paratro_sdk_rust.Base.Str.{codes}
use paratro_sdk_rust.Base.Str.Utf8.{as_bytes}
use paratro_sdk_rust.Error.Regex.{Matches, tag_shape}
use paratro_sdk_rust.Error.{Error, ErrorBody, api, reason_tag}
use paratro_sdk_rust.Error.Code
use paratro_sdk_rust.Error.Reason.{IsOperationChar}
use paratro_sdk_rust.ReasonTag.{is_known, known_tags}
use paratro_sdk_rust.ReasonTag.Tags
use paratro_sdk_rust.ReasonTag.Shape.{is_known-reason_tag}

abbrev SdkError : Type 0
SdkError = Error (Unit {0}) (Unit {0})

abbrev rejected : ErrorBody
rejected = record {
  code = codes "bad_request";
  error_type = codes "t";
  message = codes "Rejected: ata_derivation: x";
}

abbrev failed : ErrorBody
failed = record {
  code = Code.transaction_failed;
  error_type = codes "t";
  message = codes "PROGRAM_CALL failed: ata_derivation";
}

abbrev rejection : SdkError
rejection = api 400 rejected

abbrev failure : SdkError
failure = api 400 failed

capitals : All IsOperationChar (codes "PROGRAM_CALL")
capitals = ground arith

is_known-reason_tag_example :
    Matches tag_shape Tags.ata_derivation
    × (length (as_bytes Tags.ata_derivation) ≤ 64)
    × (reason_tag rejection ≡ some Tags.ata_derivation)
    × (reason_tag failure ≡ some Tags.ata_derivation)
unfolding is_known paratro_sdk_rust.Base.Str.◌=ₛ◌
is_known-reason_tag_example =
    is_known-reason_tag rejection failure rejected failed (codes "PROGRAM_CALL") Tags.ata_derivation
      (codes " x") refl refl refl refl capitals refl refl

unknown : is_known (codes "made_up") ≡ false
unfolding is_known paratro_sdk_rust.Base.Str.◌=ₛ◌
unknown = refl

tag_count : length known_tags ≡ 86
tag_count = refl
