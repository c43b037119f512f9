-- ===== src/Base/Inputs.antt =====
-- What the services make of a text of an input: `requiredText` and `nullableTrim`.
use Prim.Native.String.{String}
use mathlib.Core.Option.{Option, none, some}
use moddery.Base.Tests.{if◌then◌else◌}
use moddery.Base.Strings.{Text, trim, is_empty}
use moddery.Base.Errors.{Result, ok, err, bad_request}

-- `requiredText(value, message)`.
unfoldable pub required_text : Text → String → Result Text
required_text value message =
    let trimmed = trim value in if is_empty trimmed then err (bad_request message) else ok trimmed

-- `nullableTrim(value)`, where `undefined` and `null` are both `none`.
unfoldable pub nullable_trim : Option Text → Option Text
nullable_trim none = none
nullable_trim (some value) =
    let trimmed = trim value in if is_empty trimmed then none else some trimmed
