-- ===== src/Completion/Verify.antt =====
-- The verification of an answer (src/eiraos/application/business_features.py). The parsing of the
-- verifier's JSON is an argument.
use Prim.Native.String.{◌++◌ as join}
use eiraos_chat_backend.Prelude.{String, Option, none, some, Bool, ◌∷◌, [], str_eq, if◌then◌else◌}
use eiraos_chat_backend.Prelude.Text.{strip, upper, one_of}
use eiraos_chat_backend.Prelude.Result.{Result, ok, err, ◌>>=◌}
use eiraos_chat_backend.Completion.Raised.{Raised, other_error}

abbrev pub verified_badge : String
verified_badge =
    "\n\n*🛡\u{fe0f} [Svaret er dobbelttjekket og verificeret mod hallusinationer af AI-kvalitetskontrol]*"

abbrev pub verification_failed_badge : String
verification_failed_badge =
    "\n\n*⚠\u{fe0f} [AI-kvalitetskontrol kunne ikke verificere svaret; det er ikke markeret som verificeret]*"

pub record VerificationResult : Type 0 where
  pub status : String
  pub reason : String
  pub answer : String
  pub verified : Bool
  pub provider_output : Option String

-- `json.loads` and the entries of an object, as texts
pub data Json : Type 0 where
  invalid not_object : Json
  fields : Option String → Option String → Json

abbrev entry : String → Option String → String
entry default none = default
entry default (some s) = s

abbrev known : String → String
known status = if one_of status ("PASS" ∷ "FAIL" ∷ "UNCERTAIN" ∷ []) then status else "UNCERTAIN"

-- `_parse_verification`: `get` of a value that is no object raises an `AttributeError`, which it does
-- not catch
unfoldable pub parse_verification : Json → Result Raised (String × String)
unfolding one_of upper strip
parse_verification invalid = ok ("UNCERTAIN", "Verifierens output kunne ikke fortolkes sikkert.")
parse_verification not_object = err other_error
parse_verification (fields status reason) =
    ok (known (upper (entry "UNCERTAIN" status)), strip (entry "" reason))

abbrev judged : String → String → String × String → VerificationResult
judged primary_answer raw (status, reason) =
    let passed = str_eq status "PASS" in
    record {
      status = status;
      reason = reason;
      answer = join primary_answer (if passed then verified_badge else verification_failed_badge);
      verified = passed;
      provider_output = some raw;
    }

module _ (loads : String → Json) where
  -- of what the verifier's call came to
  unfoldable pub verify_answer : String → Result Raised String → Result Raised VerificationResult
  unfolding parse_verification
  verify_answer primary_answer (err e) = err e
  verify_answer primary_answer (ok raw) =
      parse_verification (loads raw) >>= λ v. ok (judged primary_answer raw v)
